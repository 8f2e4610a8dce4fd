-- ===== src/ToolGroups/Sets.antt =====
-- Sets of disabled groups in internal/toolgroups/toolgroups.go.
use one_ssh.ToolGroups.{
  Group, hosts, exec, fanout, jobs, files, grep_find, monitor, image, memory, Disabled, group_name,
  group_eq, get, assign, merge, union_from, union, all_disabled,
}
use one_ssh.Base.{
  String, ◌≡◌, refl, sym, ap, ◌∙◌, ◌↔◌, Bool, true, false, ◌||◌, List, [], ◌∷◌, any, arith, str_eq,
  eq_iff, if◌then◌else◌,
}

of_name : String → Group
of_name s =
    if str_eq s "hosts"
    then hosts
    else if str_eq s "exec"
    then exec
    else if str_eq s "fanout"
    then fanout
    else if str_eq s "jobs"
    then jobs
    else if str_eq s "files"
    then files
    else if str_eq s "search"
    then grep_find
    else if str_eq s "monitor"
    then monitor
    else if str_eq s "image"
    then image
    else memory

of_name-group_name : (g : Group) → of_name (group_name g) ≡ g
unfolding of_name group_name
of_name-group_name hosts = refl
of_name-group_name exec = refl
of_name-group_name fanout = refl
of_name-group_name jobs = refl
of_name-group_name files = refl
of_name-group_name grep_find = refl
of_name-group_name monitor = refl
of_name-group_name image = refl
of_name-group_name memory = refl

pub group_eq_iff : (a b : Group) → (group_eq a b ≡ true) ↔ (a ≡ b)
unfolding group_eq
group_eq_iff a b = (
  λ h.
      sym (of_name-group_name a)
      ∙ ap of_name ((eq_iff (group_name a) (group_name b)).0 h)
      ∙ of_name-group_name b,
  λ e. (eq_iff (group_name a) (group_name b)).1 (ap group_name e),
)

pub get-assign : (d : Disabled) (g h : Group) → get (assign d g) h ≡ (group_eq g h || get d h)
unfolding get assign
get-assign [] g h = ground arith
get-assign ((k, on) ∷ d) g h =
    ground (arith, get-assign d g h, group_eq_iff k g, group_eq_iff k h, group_eq_iff g h)

abbrev has : Disabled → Group → Bool
has [] g = false
has ((h, on) ∷ d) g = group_eq h g || has d g

-- A Go map holds each key once.
abbrev pub IsMap : Disabled → Type 0
IsMap [] = Unit {0}
IsMap ((h, on) ∷ d) = (has d h ≡ false) × IsMap d

get_absent : (d : Disabled) (g : Group) → has d g ≡ false → get d g ≡ false
unfolding get
get_absent [] g h = refl
get_absent ((k, on) ∷ d) g h = ground (arith, get_absent d g)

has-assign : (d : Disabled) (g h : Group) → has (assign d g) h ≡ (group_eq g h || has d h)
unfolding assign
has-assign [] g h = ground arith
has-assign ((k, on) ∷ d) g h =
    ground (arith, has-assign d g h, group_eq_iff k g, group_eq_iff k h, group_eq_iff g h)

pub assign-IsMap : (d : Disabled) (g : Group) → IsMap d → IsMap (assign d g)
unfolding assign
assign-IsMap [] g m = (refl, tt)
assign-IsMap ((k, on) ∷ d) g m =
    ground (arith, assign-IsMap d g m.1, has-assign d g k, group_eq_iff k g, group_eq_iff g k)

get-merge :
    (part out : Disabled) (g : Group)
    → IsMap part
    → get (merge out part) g ≡ (get out g || get part g)
unfolding get merge
get-merge [] out g m = ground arith
get-merge ((h, true) ∷ part) out g m =
    get-merge part (assign out h) g m.1
    ∙ ground (arith, get-assign out h g, get_absent part g, group_eq_iff h g)
get-merge ((h, false) ∷ part) out g m =
    get-merge part out g m.1
    ∙ ground (arith, get_absent part g, get_absent part h m.0, group_eq_iff h g)

abbrev pub AreMaps : List Disabled → Type 0
AreMaps [] = Unit {0}
AreMaps (part ∷ parts) = IsMap part × AreMaps parts

get-union_from :
    (parts : List Disabled) (out : Disabled) (g : Group)
    → AreMaps parts
    → get (union_from out parts) g ≡ (get out g || any (λ part. get part g) parts)
unfolding union_from
get-union_from [] out g m = ground arith
get-union_from (part ∷ parts) out g m =
    get-union_from parts (merge out part) g m.1 ∙ ground (arith, get-merge part out g m.0)

-- `Union` disables a group exactly when one of its parts does, on maps with distinct keys.
pub get-union :
    (parts : List Disabled) (g : Group)
    → AreMaps parts
    → get (union parts) g ≡ any (λ part. get part g) parts
unfolding union get
get-union parts g m = get-union_from parts [] g m

pub get-all_disabled : (g : Group) → get all_disabled g ≡ true
unfolding get all_disabled group_name
get-all_disabled hosts = refl
get-all_disabled exec = refl
get-all_disabled fanout = refl
get-all_disabled jobs = refl
get-all_disabled files = refl
get-all_disabled grep_find = refl
get-all_disabled monitor = refl
get-all_disabled image = refl
get-all_disabled memory = refl
