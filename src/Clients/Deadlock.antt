-- ===== src/Clients/Deadlock.antt =====
-- Two threads that wait for each other (`kv_lm_wlock`, src/lock_manager.c).
use sample_kv.Prelude.{ℕ, ◌%◌, ◌<◌, ◌≡◌, ◌≢◌, refl, ap, sym, ◌∙◌, Option, none, some}
use mathlib.Core.Path.{subst}
use sample_kv.Key.{Bytes}
use sample_kv.Utils.{djb2}
use sample_kv.Lock.{Manager}
use sample_kv.Lock.Counts.{in_bucket, lm_wlock_waits}
use sample_kv.Recovery.Redo.Replay.{Map}
use sample_kv.Transaction.{Tx}
use sample_kv.Command.Session.{Session, Outcome, done}
use sample_kv.Clients.{
  World, Pending, session_of, act, go_on, Step, answers, waits, snapshots, resumes, Reach, here,
  later,
}
use sample_kv.Clients.Blocked.{key_of, Tried, ran, failed, stuck}
use sample_kv.Clients.Consistent.{locks_of, update_other}
use sample_kv.Clients.Replies.{Serves}
use sample_kv.Clients.Progress.{go_on-Tried}
use sample_kv.Clients.Runs.{Reach-SpecRun}

-- Thread `i` waits for a key whose bucket thread `j` has locked.
pub record WaitsFor (w : World) (i j : ℕ) : Type 0 where
  pub pending : Pending
  pub waits_now : w.waiting i ≡ some pending
  pub key : Bytes
  pub keyed : key_of pending.request ≡ some key
  pub locked : 0 < in_bucket (djb2 key % 64) (locks_of (w.txs j))

got_none :
    {tx : Tx} {o : Outcome} {s : Session} {reply : Bytes} → Tried none tx o → o ≢ done s reply
got_none (ran got) e = cc
got_none failed e = cc
got_none (stuck none_got has) e = cc

-- No step of the thread itself helps.
no_answer :
    {w : World} {db : Map} (h : Serves w db) (i j : ℕ) (f : WaitsFor w i j) (stack : Bytes)
    (freed : Bytes → Bytes) {p : Pending} {s : Session} {reply : Bytes}
    → 0 < i
    → 0 < j
    → j ≢ i
    → w.waiting i ≡ some p
    → go_on i stack freed p.request p.is_single (session_of i w) (w.txs i) ≢ done s reply
no_answer {w} h i j f stack freed {p} {s} {reply} pos pos' ne pending e =
    let same : f.pending ≡ p = let both = sym f.waits_now ∙ pending in cc in
    let keyed = subst (λ (x : Pending). key_of x.request ≡ some f.key) same f.keyed in
    let (tx, has) = (h.pending_waits i p pending).started in
    let none_got = lm_wlock_waits i j f.key h.consistent.ready ne (
      subst (λ (n : ℕ). 0 < n) (sym ((h.consistent.client j pos').held (djb2 f.key % 64)))
        f.locked) in
    got_none
      (subst
        (λ (l : Option Manager).
          Tried l tx (go_on i stack freed p.request p.is_single (session_of i w) (some tx)))
        none_got (go_on-Tried i stack freed p.request f.key p.is_single (session_of i w) tx keyed))
      (subst (λ o. go_on i stack freed p.request p.is_single (session_of i w) o ≡ done s reply) has
        e)

-- Two threads that wait for each other, behind steps of the others.
pub record Stays (w v : World) (i j : ℕ) : Type 0 where
  pub one : WaitsFor v i j
  pub two : WaitsFor v j i
  pub first : v.waiting i ≡ w.waiting i
  pub second : v.waiting j ≡ w.waiting j

act-WaitsFor :
    (w : World) (k : ℕ) (s : Session) (o : Option Pending) {i j : ℕ}
    → k ≢ i
    → k ≢ j
    → WaitsFor w i j
    → WaitsFor (act k s o w) i j
act-WaitsFor w k s o {i} {j} ne ne' f = record {
  pending = f.pending;
  waits_now = update_other w.waiting k i o ne ∙ f.waits_now;
  key = f.key;
  keyed = f.keyed;
  locked =
      subst (λ t. 0 < in_bucket (djb2 f.key % 64) (locks_of t))
        (sym (update_other w.txs k j s.tx ne')) f.locked;
}

module _ {w : World} {i j : ℕ} (one : WaitsFor w i j) (two : WaitsFor w j i) where
  act-Stays : (k : ℕ) (s : Session) (o : Option Pending) → k ≢ i → k ≢ j → Stays w (act k s o w) i j
  act-Stays k s o ne ne' = record {
    one = act-WaitsFor w k s o ne ne' one;
    two = act-WaitsFor w k s o ne' ne two;
    first = update_other w.waiting k i o ne;
    second = update_other w.waiting k j o ne';
  }

busy : (w : World) (k : ℕ) {i j : ℕ} → WaitsFor w i j → w.waiting k ≡ none → k ≢ i
busy w k f idle e = let both = sym (ap w.waiting e) ∙ idle in let has = f.waits_now in cc

-- One step of any thread.
step-Stays :
    {w v : World} {db : Map} {i j : ℕ}
    → Step w v
    → Serves w db
    → 0 < i
    → 0 < j
    → i ≢ j
    → WaitsFor w i j
    → WaitsFor w j i
    → Stays w v i j
step-Stays {w} (answers k stack freed r {s} pos idle f room e) h pi pj ne one two =
    act-Stays one two k s none (busy w k one idle) (busy w k two idle)
step-Stays {w} (waits k stack freed r {s} pos idle f room e) h pi pj ne one two =
    act-Stays one two k s _ (busy w k one idle) (busy w k two idle)
step-Stays (snapshots ongoing lists fits room e) h pi pj ne one two = record {
  one = record {
    pending = one.pending;
    waits_now = one.waits_now;
    key = one.key;
    keyed = one.keyed;
    locked = one.locked;
  };
  two = record {
    pending = two.pending;
    waits_now = two.waits_now;
    key = two.key;
    keyed = two.keyed;
    locked = two.locked;
  };
  first = refl;
  second = refl;
}
step-Stays {w} {i = i} {j} (resumes k stack freed p {s} pos pending room e) h pi pj ne one two =
    act-Stays one two k s none
      (λ same.
        no_answer h k j (subst (λ (x : ℕ). WaitsFor w x j) (sym same) one) stack freed pos pj
          (λ e'. ne (sym same ∙ sym e')) pending e)
      (λ same.
        no_answer h k i (subst (λ (x : ℕ). WaitsFor w x i) (sym same) two) stack freed pos pi
          (λ e'. ne (e' ∙ same)) pending e)

-- In a world that serves, two threads that each wait for a key whose bucket the other has locked wait for
-- ever: whatever steps follow, in any order, neither request is answered. This holds for `get` as for `set`, since
-- `kv_rwl_rlock` takes the lock as `kv_rwl_wlock` does.
pub deadlock-Stays :
    {w v : World} {db : Map} {i j : ℕ}
    → Reach w v
    → Serves w db
    → 0 < i
    → 0 < j
    → i ≢ j
    → WaitsFor w i j
    → WaitsFor w j i
    → Stays w v i j
deadlock-Stays here h pi pj ne one two = record {
  one = one;
  two = two;
  first = refl;
  second = refl;
}
deadlock-Stays (later r s) h pi pj ne one two =
    let before = deadlock-Stays r h pi pj ne one two in
    let (db, h', run) = Reach-SpecRun r h in
    let after = step-Stays s h' pi pj ne before.one before.two in
    record {
      one = after.one;
      two = after.two;
      first = after.first ∙ before.first;
      second = after.second ∙ before.second;
    }
