-- ===== src/TxManager/Restart.antt =====
-- `kv_txm_init` of src/tx_manager.c on the file that `kv_txm_start_new_transaction` leaves.
use sample_kv.Prelude.{
  ℕ, zero, suc, ◌+◌, ◌-◌, ◌%◌, ◌^◌, ◌<◌, ◌≡◌, refl, true, false, some, [], ◌∷◌, ◌++◌, arith, length,
  length-append, take, drop, take-append, drop-append, leb, ◌==◌,
}
use mathlib.Core.Path.{subst}
use sample_kv.Key.{Bytes}
use sample_kv.Utils.{uint32_to_hex}
use sample_kv.Utils.Hex.{length-uint32_to_hex, hex_to_uint32-uint32_to_hex}
use sample_kv.Recovery.{newline, fputs, fgets, overlay}
use sample_kv.Recovery.Entries.{IsText}
use sample_kv.Recovery.Format.{last, hex-IsText, IsRow-append, c_str-IsRow}
use sample_kv.Command.Session.{Session, start_new_transaction}
use sample_kv.TxManager.{init}

-- A line of text is read up to its newline, or to the end of the array.
pub fgets-IsText :
    (n : ℕ) {s : Bytes} (rest : Bytes) → IsText s → length s ≡ n → fgets n (s ++ rest) ≡ (s, rest)
unfolding fgets
fgets-IsText zero rest IsText.nil e = refl
fgets-IsText zero rest (IsText.char ne nz t) e = absurd (omega arith)
fgets-IsText (suc n) rest IsText.nil e = absurd (omega arith)
fgets-IsText (suc n) rest (IsText.char ne nz t) e =
    rw (fgets-IsText n rest t (omega arith)) (ground arith)

-- What `kv_txm_start_new_transaction` adds to tx_id.kvdb.
abbrev id_line : ℕ → Bytes
id_line id = uint32_to_hex id ++ newline ∷ []

pub take_hex : (id : ℕ) (rest : Bytes) → take 8 (uint32_to_hex id ++ rest) ≡ uint32_to_hex id
take_hex id rest =
    subst (λ (n : ℕ). take n (uint32_to_hex id ++ rest) ≡ uint32_to_hex id)
      (length-uint32_to_hex id) (take-append (uint32_to_hex id) rest)

init-line : (stack file : Bytes) (id : ℕ) → id < 2 ^ 32 → init stack (file ++ id_line id) ≡ some id
unfolding init overlay
init-line stack file id small =
    let eight = length-uint32_to_hex id in
    let len : length (file ++ id_line id) ≡ length file + 9 = omega (
      arith,
      length-append file (id_line id),
      length-append (uint32_to_hex id) (newline ∷ []),
      eight,
    ) in
    let back : length file + 9 - 9 ≡ length file = omega arith in
    let some_bytes : (length file + 9 == 0) ≡ false = ground arith in
    let long : leb 9 (length file + 9) ≡ true = ground arith in
    rw
      (
        init,
        len,
        back,
        some_bytes,
        long,
        drop-append file (id_line id),
        fgets-IsText 8 (newline ∷ []) (hex-IsText id) eight,
        take_hex id (0 ∷ drop (length (uint32_to_hex id) + 1) stack),
        hex_to_uint32-uint32_to_hex id small,
      )
      refl

-- After `kv_txm_start_new_transaction`, from whatever file, a server that starts again goes on from the
-- id of that transaction: `kv_txm_init` does not exit, and reads the id that the session had reached,
-- whatever its array held before.
pub init-start_new_transaction :
    (stack : Bytes) (s : Session)
    → init stack (start_new_transaction s).1.tx_id_file
      ≡ some (start_new_transaction s).1.transaction_id
unfolding start_new_transaction fputs
init-start_new_transaction stack s =
    let id : ℕ = (s.transaction_id + 1) % 2 ^ 32 in
    rw (c_str-IsRow (IsRow-append (hex-IsText id) last))
      (init-line stack s.tx_id_file id (omega arith))
