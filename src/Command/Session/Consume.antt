-- ===== src/Command/Session/Consume.antt =====
-- `consume_command` of src/kv_command.c: one command line of what has arrived, however it is split.
use sample_kv.Prelude.{
  ℕ, Lacks, differ, suc, ◌+◌, ◌-◌, ◌≡◌, ◌≢◌, refl, ap, ◌∙◌, true, false, Option, none, some, [],
  ◌∷◌, ◌++◌, arith, length, length-append, take, drop_past, drop, take-append, append_assoc, ltb,
}
use sample_kv.Prelude.Cuts.{Lacks-append}
use sample_kv.Key.{Bytes}
use sample_kv.Recovery.{newline}
use sample_kv.Command.{
  Request, request, set_request, carriage_return, find_end_loop, find_end_of_command, key_len_loop,
  get_key_len_of_set, space_count, is_command_empty, is_command_get, is_command_set, is_command_del,
  is_transaction_started,
}
use sample_kv.Command.Session.{Session, Outcome, run_command, run_request, run_set}

-- `consume_command`: what stays in the buffer, and the outcome of the first command; `none` where no
-- line is complete and the buffer stays as it is. The buffer is a C string of less than 128 characters.
unfoldable pub consume_command :
    (self : ℕ) (stack : Bytes) (freed : Bytes → Bytes) → Bytes → Session → Option (Bytes × Outcome)
consume_command self stack freed command s = elim (find_end_of_command command) [
  | none ↦ none
  | some end ↦
      some
        (drop (end + 1) command, run_command self stack freed (take (end + 1) command) (end - 1) s)
]

abbrev pub line_end : Bytes
line_end = carriage_return ∷ newline ∷ []

find_end_loop-line :
    (cmd rest : Bytes) (i : ℕ)
    → Lacks carriage_return cmd
    → find_end_loop (cmd ++ carriage_return ∷ newline ∷ rest) i ≡ some (i + length cmd + 1)
unfolding find_end_loop
find_end_loop-line [] rest i h = ap some (omega arith)
find_end_loop-line (c ∷ []) rest i h = rw (differ c 13 h.0) (ap some (omega arith))
find_end_loop-line (c ∷ d ∷ cmd) rest i h =
    rw (differ c 13 h.0) (find_end_loop-line (d ∷ cmd) rest (i + 1) h.1 ∙ ap some (omega arith))

take_line :
    (cmd rest : Bytes)
    → take (suc (suc (length cmd))) (cmd ++ carriage_return ∷ newline ∷ rest) ≡ cmd ++ line_end
take_line [] rest = refl
take_line (c ∷ cmd) rest = ap (λ l. c ∷ l) (take_line cmd rest)

drop_line :
    (cmd rest : Bytes)
    → drop (suc (suc (length cmd))) (cmd ++ carriage_return ∷ newline ∷ rest) ≡ rest
drop_line [] rest = refl
drop_line (c ∷ cmd) rest = drop_line cmd rest

module _ (self : ℕ) (stack : Bytes) (freed : Bytes → Bytes) where
  -- `consume_command`, on a buffer that begins with a line without a carriage return in it, runs that
  -- line, with its line end and with its length without it, and keeps all that is behind it.
  pub consume_command-line :
      (cmd rest : Bytes) (s : Session)
      → Lacks carriage_return cmd
      → consume_command self stack freed (cmd ++ carriage_return ∷ newline ∷ rest) s
        ≡ some (rest, run_command self stack freed (cmd ++ line_end) (length cmd) s)
  unfolding consume_command find_end_of_command
  consume_command-line cmd rest s h =
      let found = find_end_loop-line cmd rest 0 h in
      let two : 0 + length cmd + 1 + 1 ≡ suc (suc (length cmd)) = omega arith in
      let len : 0 + length cmd + 1 - 1 ≡ length cmd = omega arith in
      rw (consume_command, find_end_of_command, found, two, len, take_line, drop_line) refl

not_empty : (c : ℕ) (s : Bytes) → c ≢ 13 → is_command_empty (c ∷ s) ≡ false
unfolding is_command_empty
not_empty c s h = ground (arith, differ c 13 h)

not_started : (c : ℕ) (s : Bytes) → c ≢ b'b' → is_transaction_started (c ∷ s) ≡ false
unfolding is_transaction_started
not_started c s h = ground (arith, differ c b'b' h)

not_get : (c : ℕ) (s : Bytes) → c ≢ b'g' → is_command_get (c ∷ s) ≡ false
unfolding is_command_get
not_get c s h = ground (arith, differ c b'g' h)

long : (key : Bytes) → ltb 4 (suc (suc (suc (suc (length (key ++ line_end)))))) ≡ true
long key = ground (arith, length-append key line_end)

key_only : (key : Bytes) → take (length key + 4 - 4) (key ++ line_end) ≡ key
key_only key =
    let n : length key + 4 - 4 ≡ length key = omega arith in rw n (take-append key line_end)

-- The text of a `get` command is recognised as one, with its key, whatever the key is.
pub request-get :
    (key : Bytes)
    → request (b'g' ∷ b'e' ∷ b't' ∷ b' ' ∷ key ++ line_end) (length key + 4) ≡ Request.get key
unfolding request
request-get key =
    rw (request, not_empty b'g' _ (λ e. ground arith), not_started b'g' _ (λ e. ground arith))
      (unfold is_command_get in rw (long key, key_only key) refl)

pub request-del :
    (key : Bytes)
    → request (b'd' ∷ b'e' ∷ b'l' ∷ b' ' ∷ key ++ line_end) (length key + 4) ≡ Request.del key
unfolding request
request-del key =
    rw
      (
        request,
        not_empty b'd' _ (λ e. ground arith),
        not_started b'd' _ (λ e. ground arith),
        not_get b'd' _ (λ e. ground arith),
      )
      (unfold is_command_del in rw (long key, key_only key) refl)

space_count-append : (a b : Bytes) → space_count (a ++ b) ≡ space_count a + space_count b
unfolding space_count
space_count-append [] b = omega arith
space_count-append (c ∷ a) b = ground (arith, space_count-append a b)

space_count-Lacks : (a : Bytes) → Lacks b' ' a → space_count a ≡ 0
unfolding space_count
space_count-Lacks [] h = refl
space_count-Lacks (c ∷ a) h = rw (differ c b' ' h.0) (space_count-Lacks a h.1)

key_len_loop-Lacks :
    (key r : Bytes) (n : ℕ)
    → Lacks b' ' key
    → key_len_loop (key ++ b' ' ∷ r) n ≡ some (n + length key)
unfolding key_len_loop
key_len_loop-Lacks [] r n h = ap some (omega arith)
key_len_loop-Lacks (c ∷ key) r n h =
    rw (differ c b' ' h.0) (key_len_loop-Lacks key r (n + 1) h.1 ∙ ap some (omega arith))

module _ (c : ℕ) (key value : Bytes) (in_key : Lacks b' ' (c ∷ key))
    (in_val : Lacks b' ' value) where
  two_spaces : space_count (b's' ∷ b'e' ∷ b't' ∷ b' ' ∷ c ∷ (key ++ b' ' ∷ (value ++ line_end))) ≡ 2
  unfolding space_count
  two_spaces =
      rw
        (
          differ c b' ' in_key.0,
          space_count-append key,
          space_count-append value,
          space_count-Lacks key in_key.1,
          space_count-Lacks value in_val,
        )
        refl

  set_line-cut :
      set_request
        (b's' ∷ b'e' ∷ b't' ∷ b' ' ∷ c ∷ (key ++ b' ' ∷ (value ++ line_end)))
        (length key + length value + 6)
      ≡ Request.set (c ∷ key) value
  unfolding set_request get_key_len_of_set
  set_line-cut =
      let found = key_len_loop-Lacks key (value ++ line_end) 1 in_key.1 in
      let n : 1 + length key ≡ suc (length key) = omega arith in
      let past : suc (length key) + 5 ≡ suc (suc (suc (suc (suc (suc (length key)))))) =
        omega arith in
      let left : length key + length value + 6 - suc (length key) - 5 ≡ length value =
        omega arith in
      rw
        (
          set_request,
          get_key_len_of_set,
          found,
          n,
          past,
          left,
          drop_past key (value ++ line_end) b' ',
          take-append key (b' ' ∷ (value ++ line_end)),
          take-append value line_end,
        )
        refl

  -- The text of a `set` command is recognised as one, with its key and its value, for a key that is not
  -- empty, and without spaces in the key and in the value.
  pub request-set :
      request
        (b's' ∷ b'e' ∷ b't' ∷ b' ' ∷ c ∷ (key ++ b' ' ∷ (value ++ line_end)))
        (length key + length value + 6)
      ≡ Request.set (c ∷ key) value
  unfolding request
  request-set =
      let more : ltb 4 (suc (suc (suc (suc (suc (length (key ++ b' ' ∷ (value ++ line_end))))))))
          ≡ true =
        ground arith in
      rw
        (
          request,
          not_empty b's' _ (λ e. ground arith),
          not_started b's' _ (λ e. ground arith),
          not_get b's' _ (λ e. ground arith),
        )
        (unfold is_command_set in rw (more, two_spaces) set_line-cut)

-- A key or a value that a client can send: neither spaces nor carriage returns.
pub record IsToken (s : Bytes) : Type 0 where
  pub no_space : Lacks b' ' s
  pub no_return : Lacks carriage_return s

abbrev pub set_line : Bytes → Bytes → Bytes
set_line key value = b's' ∷ b'e' ∷ b't' ∷ b' ' ∷ (key ++ b' ' ∷ value)

module _ (self : ℕ) (stack : Bytes) (freed : Bytes → Bytes) where
  -- `consume_command`, on a buffer that begins with the text of a `set` command, sets the value of that
  -- key, and keeps what is behind the line, for a key and a value without spaces and carriage returns,
  -- and a key that is not empty.
  pub consume_command-set :
      (c : ℕ) (key value rest : Bytes) (s : Session)
      → IsToken (c ∷ key)
      → IsToken value
      → consume_command self stack freed
          (set_line (c ∷ key) value ++ carriage_return ∷ newline ∷ rest)
          s
        ≡ some (rest, run_set self stack freed (c ∷ key) value s)
  unfolding run_command run_request
  consume_command-set c key value rest s k v =
      let no_return : Lacks carriage_return (set_line (c ∷ key) value) = (
        λ e. ground arith,
        (
          λ e. ground arith,
          (
            λ e. ground arith,
            (
              λ e. ground arith,
              (
                k.no_return.0,
                Lacks-append carriage_return key (b' ' ∷ value) k.no_return.1
                    (λ e. ground arith, v.no_return),
              ),
            ),
          ),
        ),
      ) in
      let len : length (set_line (c ∷ key) value) ≡ length key + length value + 6 =
        omega (arith, length-append key (b' ' ∷ value)) in
      consume_command-line self stack freed (set_line (c ∷ key) value) rest s no_return
      ∙ rw (append_assoc, len, run_command, request-set c key value k.no_space v.no_space) refl
