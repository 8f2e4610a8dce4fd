-- ===== src/ToolGroups/Normalizing.antt =====
-- `NormalizeList` of internal/toolgroups/toolgroups.go.
use one_ssh.ToolGroups.{
  Group, hosts, exec, fanout, jobs, files, grep_find, monitor, image, memory, Definition, Disabled,
  Result, ok, unknown_group, group_name, group_eq, all_groups, name_of, names, get, assign,
  assign_all, lookup, parse_from, parse_list, normalize_list, names_of,
}
use one_ssh.ToolGroups.Sets.{get-assign}
use one_ssh.Base.{
  ℕ, ◌≡◌, refl, ap, subst, ◌∙◌, Bool, false, ◌||◌, ◌&&◌, List, [], ◌∷◌, any, arith, map, keep,
  codes, trim_space, to_lower,
}
use mathlib.Core.Path.{fun_ext}

-- One step of the loop on a name that `Names` writes.
parse_from-name :
    (d : Disabled) (g : Group) (fields : List (List ℕ))
    → parse_from d (codes (group_name g) ∷ fields) ≡ parse_from (assign d g) fields
unfolding parse_from lookup group_name trim_space to_lower
parse_from-name d hosts fields = refl
parse_from-name d exec fields = refl
parse_from-name d fanout fields = refl
parse_from-name d jobs fields = refl
parse_from-name d files fields = refl
parse_from-name d grep_find fields = refl
parse_from-name d monitor fields = refl
parse_from-name d image fields = refl
parse_from-name d memory fields = refl

parse_from-names :
    (defs : List Definition) (d : Disabled)
    → parse_from d (map name_of defs) ≡ ok (assign_all d defs)
unfolding assign_all name_of
parse_from-names [] d = unfold parse_from in refl
parse_from-names (def ∷ defs) d =
    parse_from-name d def.group (map name_of defs) ∙ parse_from-names defs (assign d def.group)

get-assign_all :
    (defs : List Definition) (d : Disabled) (g : Group)
    → get (assign_all d defs) g ≡ (get d g || any (λ def. group_eq def.group g) defs)
unfolding assign_all
get-assign_all [] d g = ground arith
get-assign_all (def ∷ defs) d g =
    ground (arith, get-assign_all defs (assign d def.group) g, get-assign d def.group g)

any-keep :
    (p q : Definition → Bool) (defs : List Definition)
    → any q (keep p defs) ≡ any (λ def. q def && p def) defs
any-keep p q [] = refl
any-keep p q (def ∷ defs) = ground (arith, any-keep p q defs)

or_last : (b : Bool) → (b || false) ≡ b
or_last b = ground arith

listed_get :
    (f : Group → Bool) (g : Group)
    → any (λ def. group_eq def.group g && f def.group) all_groups ≡ f g
unfolding group_eq group_name
listed_get f hosts = ground arith
listed_get f exec = ground arith
listed_get f fanout = ground arith
listed_get f jobs = ground arith
listed_get f files = ground arith
listed_get f grep_find = ground arith
listed_get f monitor = ground arith
listed_get f image = ground arith
listed_get f memory = or_last (f memory)

get-assign_all_empty :
    (defs : List Definition) (g : Group)
    → get (assign_all [] defs) g ≡ any (λ def. group_eq def.group g) defs
unfolding get
get-assign_all_empty defs g = get-assign_all defs [] g

names-get :
    (d : Disabled) (g : Group)
    → get (assign_all [] (keep (λ def. get d def.group) all_groups)) g ≡ get d g
names-get d g =
    get-assign_all_empty (keep (λ def. get d def.group) all_groups) g
    ∙ any-keep (λ def. get d def.group) (λ def. group_eq def.group g) all_groups
    ∙ listed_get (get d) g

names_cong : (d e : Disabled) → ((g : Group) → get d g ≡ get e g) → names d ≡ names e
unfolding names
names_cong d e h =
    ap (λ f. map name_of (keep (λ def. f def.group) all_groups)) (fun_ext {f = get d} {g = get e} h)

parse_list-names :
    (d : Disabled)
    → parse_list (names d) ≡ ok (assign_all [] (keep (λ def. get d def.group) all_groups))
unfolding parse_list names
parse_list-names d = parse_from-names (keep (λ def. get d def.group) all_groups) []

normalize_list-names : (d : Disabled) → normalize_list (names d) ≡ ok (names d)
unfolding normalize_list
normalize_list-names d =
    ap names_of (parse_list-names d)
    ∙ ap ok (names_cong (assign_all [] (keep (λ def. get d def.group) all_groups)) d (names-get d))

names_of-ok :
    (r : Result Disabled) (ns : List (List ℕ))
    → names_of r ≡ ok ns
    → (d : Disabled) × (names d ≡ ns)
names_of-ok (ok d) ns h = (d, ground arith)
names_of-ok unknown_group ns h = cc

-- What `NormalizeList` writes it reads back unchanged: the stored list is a fixed point.
pub normalize_list_idem :
    (fields ns : List (List ℕ)) → normalize_list fields ≡ ok ns → normalize_list ns ≡ ok ns
unfolding normalize_list
normalize_list_idem fields ns h =
    let (d, e) = names_of-ok (parse_list fields) ns h in
    subst (λ ms. normalize_list ms ≡ ok ms) e (normalize_list-names d)
