-- ===== src/Sshpool/Password.antt =====
-- `passwordChallenge` of internal/sshpool/pool.go over the prompts of a whole authentication. The
-- method `ssh.Password`, which `passwordAuthentication` offers beside it, is the library's.
use one_ssh.Base.{
  ◌≤◌, String, Bool, true, false, List, [], ◌∷◌, Option, none, some, ◌≡◌, refl, arith, all, length,
}
use one_ssh.Sshpool.{password_challenge}

-- A prompt of the server: its questions, and whether each answer would be shown.
abbrev pub Prompt : Type 0
Prompt = List String × List Bool

abbrev pub note_answer :
    Prompt → List (Prompt × List String) → Option (List String) → List (Prompt × List String)
note_answer prompt rest none = rest
note_answer prompt rest (some answer) = (prompt, answer) ∷ rest

-- The prompts of one authentication that the pool answers, with the answers, in order; `answered` is
-- the state that the callback keeps.
pub answers : String → Bool → List Prompt → List (Prompt × List String)
answers password answered [] = []
answers password answered (p ∷ ps) =
    let r = password_challenge password answered p.0 p.1 in
    note_answer p (answers password r.1 ps) r.0

-- One question whose answer is hidden.
abbrev pub is_hidden : Prompt → Bool
is_hidden ((q ∷ []), (false ∷ [])) = true
is_hidden p = false

answers-answered : (password : String) (ps : List Prompt) → answers password true ps ≡ []
unfolding answers password_challenge
answers-answered password [] = refl
answers-answered password (p ∷ ps) = answers-answered password ps

-- The callback for keyboard-interactive prompts answers at most one prompt of an authentication,
-- whatever prompts the server sends, and only one of a single question whose answer is hidden. The
-- password method, which may have sent the password before, is not spoken of.
pub answers_once :
    (password : String) (ps : List Prompt)
    → (length (answers password false ps) ≤ 1)
      × (all (λ a. is_hidden a.0) (answers password false ps) ≡ true)
unfolding answers password_challenge
answers_once password [] = (omega arith, refl)
answers_once password (([], es) ∷ ps) = answers_once password ps
answers_once password ((q ∷ [], []) ∷ ps) = answers_once password ps
answers_once password ((q ∷ [], true ∷ []) ∷ ps) = answers_once password ps
answers_once password ((q ∷ [], false ∷ []) ∷ ps) =
    let e = answers-answered password ps in rw e (omega arith, refl)
answers_once password ((q ∷ [], e ∷ d ∷ es) ∷ ps) = answers_once password ps
answers_once password ((q ∷ r ∷ qs, es) ∷ ps) = answers_once password ps
