-- ===== src/Main.antt =====
-- src/main.c: the port that the arguments ask for.
pub mod Port
use sample_kv.Prelude.{
  ℕ, ◌%◌, ◌^◌, Bool, true, false, Option, none, some, List, [], ◌∷◌, ◌&&◌, ◌==◌, if◌then◌else◌,
}
use sample_kv.Key.{Bytes}
use sample_kv.Utils.{digit_to_int}

abbrev pub default_port : ℕ
default_port = 1234

-- `enum arg_state`
pub data ArgState : Type 0 where
  ready : ArgState
  port_setting : ArgState

-- Where `strcmp` returns 0.
abbrev pub strcmp_zero : Bytes → Bytes → Bool
strcmp_zero [] [] = true
strcmp_zero (a ∷ s) (b ∷ t) = (a == b) && strcmp_zero s t
strcmp_zero _ _ = false

-- "-p"
abbrev pub port_option : Bytes
port_option = 45 ∷ 112 ∷ []

-- The loop over the arguments behind the name of the program; `none` where `digit_to_int` ends the
-- process. The state is not set back.
unfoldable pub read_args : List Bytes → ArgState → ℕ → Option ℕ
read_args [] state port = some port
read_args (arg ∷ args) ArgState.ready port =
    read_args args (if strcmp_zero port_option arg then ArgState.port_setting else ArgState.ready)
      port
read_args (arg ∷ args) ArgState.port_setting port = elim (digit_to_int arg) [
  | none ↦ none
  | some n ↦ read_args args ArgState.port_setting n
]

-- The argument of `kv_run_server`, a `uint16_t`.
unfoldable pub server_port : List Bytes → Option ℕ
unfolding read_args
server_port args = elim (read_args args ArgState.ready 0) [
  | none ↦ none
  | some port ↦ some ((if port == 0 then default_port else port) % 2 ^ 16)
]
