-- ===== src/Searchcore/Find/Bounds.antt =====
-- The size of what `Find` of internal/searchcore/core.go returns.
use one_ssh.Base.{
  ℕ, ◌+◌, ◌≤◌, ◌<◌, Bool, true, not, ◌||◌, List, [], ◌∷◌, ◌++◌, Option, none, some, ltb, leb, ◌≡◌,
  refl, arith, length, length-append, Bool-cases, inl, inr, subst,
}
use one_ssh.Searchcore.Paths.{json_length}
use one_ssh.Searchcore.Glob.{
  Engine, Compiled, bad_pattern, no_matcher, compiled, compile_path_matcher,
}
use one_ssh.Searchcore.Walk.{Fs, Info, Walker, walk, resolve_search_root}
use one_ssh.Searchcore.Walk.Keeps.{VisitKeeps, EndKeeps, walk-EndKeeps}
use one_ssh.Searchcore.Find.{
  max_output_bytes, FindResult, lets_through, find_path, find_visit, find_start, finish_find,
  find_setting, find_at, find_with, find,
}

-- The bytes that the paths take in the answer, with a separator each.
abbrev pub total_bytes : List (List ℕ) → ℕ
total_bytes [] = 0
total_bytes (p ∷ ps) = (json_length p + 1) + total_bytes ps

total_bytes-append :
    (ps : List (List ℕ)) (p : List ℕ)
    → total_bytes (ps ++ p ∷ []) ≡ total_bytes ps + (json_length p + 1)
total_bytes-append [] p = omega arith
total_bytes-append (q ∷ ps) p = omega (arith, total_bytes-append ps p)

-- The result keeps to the limit, says so when it is reached, and to the bytes of an answer.
pub record IsBounded (limit : ℕ) (out : FindResult) : Type 0 where
  pub most : length out.paths ≤ limit
  pub says : (ltb (length out.paths) limit || out.is_truncated) ≡ true
  pub counted : out.output_bytes ≡ 64 + total_bytes out.paths
  pub size : 64 + total_bytes out.paths ≤ max_output_bytes

-- Below the limit.
record IsOpen (limit : ℕ) (out : FindResult) : Type 0 where
  fewer : length out.paths < limit
  counted : out.output_bytes ≡ 64 + total_bytes out.paths
  size : 64 + total_bytes out.paths ≤ max_output_bytes

module _ (limit : ℕ) where
  IsOpen-IsBounded : (out : FindResult) → IsOpen limit out → IsBounded limit out
  IsOpen-IsBounded out o = record {
    most = omega (arith, o.fewer);
    says = ground (arith, o.fewer);
    counted = o.counted;
    size = o.size;
  }

  find_path-keeps :
      (relative : List ℕ) (out : FindResult)
      → IsOpen limit out
      → VisitKeeps (IsOpen limit) (IsBounded limit) (find_path limit relative out)
  unfolding find_path
  find_path-keeps relative out o =
      let paths = out.paths ++ relative ∷ [] in
      let n = length-append out.paths (relative ∷ []) in
      let t = total_bytes-append out.paths relative in
      elim (Bool-cases (ltb max_output_bytes (out.output_bytes + (json_length relative + 1)))) [
        | inl e ↦ rw e (record {
          most = omega (arith, o.fewer);
          says = ground arith;
          counted = o.counted;
          size = o.size;
        })
        | inr e ↦ elim (Bool-cases (leb limit (length paths))) [
          | inl l ↦
              rw (e, l)
                (record {
                  most = omega (arith, o.fewer);
                  says = ground arith;
                  counted = omega (arith, o.counted);
                  size = ground (arith, o.counted);
                })
          | inr l ↦
              rw (e, l)
                (record {
                  fewer = ground arith;
                  counted = omega (arith, o.counted);
                  size = ground (arith, o.counted);
                })
        ]
      ]

  find_visit-keeps :
      (c : Compiled) (full relative : List ℕ) (info : Info) (out : FindResult)
      → IsOpen limit out
      → VisitKeeps (IsOpen limit) (IsBounded limit) (find_visit c limit full relative info out)
  unfolding find_visit
  find_visit-keeps c full relative info out o =
      elim (Bool-cases (not (lets_through c relative full))) [
        | inl e ↦ rw e o
        | inr e ↦ rw e (find_path-keeps relative out o)
      ]

  finish_find-IsBounded :
      (w : Option (Walker FindResult)) (out : FindResult)
      → EndKeeps (IsOpen limit) (IsBounded limit) w
      → finish_find w ≡ some out
      → IsBounded limit out
  finish_find-IsBounded none out k h = cc
  finish_find-IsBounded (some w) out k h =
      let finished : FindResult = record {
        paths = w.found.paths;
        is_truncated = w.found.is_truncated || w.truncated;
        output_bytes = w.found.output_bytes;
      } in
      let e : finished ≡ out = ground arith in
      subst (IsBounded limit) e (record {
        most = k.most;
        says = ground (arith, k.says);
        counted = k.counted;
        size = k.size;
      })

  start-IsOpen : 0 < limit → IsOpen limit find_start
  start-IsOpen h = record { fewer = h; counted = refl; size = omega arith }

  find_at-IsBounded :
      (fs : Fs) (engine : Engine) (cancelled : List ℕ → Bool) (c : Compiled)
      (root : Option (List ℕ)) (out : FindResult)
      → 0 < limit
      → find_at fs engine cancelled c limit root ≡ some out
      → IsBounded limit out
  find_at-IsBounded fs engine cancelled c none out l h = cc
  find_at-IsBounded fs engine cancelled c (some root) out l h =
      finish_find-IsBounded (walk (find_setting fs engine cancelled c limit) root find_start) out
        (walk-EndKeeps (IsOpen limit) (IsBounded limit) (find_setting fs engine cancelled c limit)
          IsOpen-IsBounded (find_visit-keeps c) root find_start (start-IsOpen l))
        h

  find_with-IsBounded :
      (fs : Fs) (engine : Engine) (cancelled : List ℕ → Bool) (c : Compiled) (name : List ℕ)
      (out : FindResult)
      → 0 < limit
      → find_with fs engine cancelled c limit name ≡ some out
      → IsBounded limit out
  find_with-IsBounded fs engine cancelled bad_pattern name out l h = cc
  find_with-IsBounded fs engine cancelled no_matcher name out l h =
      find_at-IsBounded fs engine cancelled no_matcher (resolve_search_root fs name) out l h
  find_with-IsBounded fs engine cancelled (compiled m) name out l h =
      find_at-IsBounded fs engine cancelled (compiled m) (resolve_search_root fs name) out l h

  -- On every file system, pattern and root, with a positive limit: a result of `Find` holds at most
  -- `limit` paths, is marked as truncated if it holds that many, and its paths, as JSON, take at
  -- most `MaxOutputBytes` with the 64 bytes that are set aside.
  pub find-IsBounded :
      (fs : Fs) (engine : Engine) (cancelled : List ℕ → Bool) (pattern name : List ℕ)
      (out : FindResult)
      → 0 < limit
      → find fs engine cancelled pattern name limit ≡ some out
      → IsBounded limit out
  unfolding find
  find-IsBounded fs engine cancelled pattern name out l h =
      find_with-IsBounded fs engine cancelled (compile_path_matcher engine pattern true) name out l
        h
