-- ===== src/Examples/Sshpool.antt =====
-- internal/sshpool/pool.go at concrete inputs.
use one_ssh.Base.{List, true, ◌≡◌, refl, [], ◌∷◌, none, some}
use one_ssh.Store.Hosts.{Host}
use one_ssh.Sshpool.{Pool, Network, new_pool, ok, err, jump_failed, jump_cycle, get, is_online}
use one_ssh.Base.{length, all, ◌≤◌, false}
use one_ssh.Sshpool.Password.{Prompt, answers, is_hidden, answers_once}
use one_ssh.Sshpool.Chains.{is_answer, get-is_answer}

-- A host behind a jump host, and two hosts that are each other's jump host.
abbrev pub front : Host
front = record {
  id = 1;
  name = "front";
  addr = "10.0.0.1";
  port = 22;
  username = "root";
  auth_type = "password";
  key_id = none;
  password_enc = some (1 ∷ []);
  host_key_fp = none;
  jump_host_id = none;
  monitor_enabled = true;
  tags = [];
  created_at = 0;
  archived_at = none;
}

abbrev pub inner : Host
inner = record front {
  id = 2;
  name = "inner";
  auth_type = "key";
  key_id = some 4;
  jump_host_id = some 1;
}

abbrev left : Host
left = record front { id = 3; name = "left"; jump_host_id = some 4 }

abbrev right : Host
right = record front { id = 4; name = "right"; jump_host_id = some 3 }

abbrev pool : Pool
pool = new_pool (front ∷ inner ∷ left ∷ right ∷ [])

abbrev pub network : Network
network = record {
  opens_password = λ h. true;
  opens_key = λ h k. true;
  reaches = λ c h. some "SHA256:x";
  records = λ h. true;
  lets_in = λ h. true;
}

get_inner : (get network "inner" pool).0 ≡ ok 1
unfolding get
get_inner = refl

inner_jump_online : (is_online "front" (get network "inner" pool).1).0 ≡ true
unfolding get is_online
inner_jump_online = refl

get_cycle : (get network "left" pool).0 ≡ err (jump_failed (jump_failed jump_cycle))
unfolding get
get_cycle = refl

get-is_answer_example : is_answer (get network "left" pool) ≡ true
get-is_answer_example = get-is_answer network "left" pool

-- A prompt whose answer would be shown, one for the password, and one more.
abbrev prompts : List Prompt
prompts =
    ("Code: " ∷ [], true ∷ []) ∷ ("Password: " ∷ [], false ∷ []) ∷ ("Again: " ∷ [], false ∷ []) ∷ []

answers_once_example :
    (length (answers "pw" false prompts) ≤ 1)
    × (all (λ a. is_hidden a.0) (answers "pw" false prompts) ≡ true)
answers_once_example = answers_once "pw" prompts
