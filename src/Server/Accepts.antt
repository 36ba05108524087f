-- ===== src/Server/Accepts.antt =====
-- The loop of `kv_run_server` that takes clients (src/kv_server.c), and the descriptors that it closes.
use sample_kv.Prelude.{
  ℕ, ◌≡◌, ◌≢◌, refl, ap, Bool, ◌&&◌, Bool-cases, inl, inr, List, [], ◌∷◌, differ, ==_refl, ◌==◌,
  if◌then◌else◌,
}

-- How one client was taken: the descriptor from `accept`, whether `write` sent the greeting, and whether
-- `pthread_create` made the thread.
pub record Taken : Type 0 where
  pub client_fd : ℕ
  pub greeted : Bool
  pub created : Bool

-- What the loop does not do goes on elsewhere: it holds the descriptors that are open, and
-- those that a thread was given.
pub record Descriptors : Type 0 where
  pub opened : List ℕ
  pub threads : List ℕ

unfoldable pub close : ℕ → List ℕ → List ℕ
close fd [] = []
close fd (x ∷ xs) = let rest = close fd xs in if x == fd then rest else x ∷ rest

-- The body of the loop, behind `accept`.
unfoldable pub take_client : Taken → Descriptors → Descriptors
unfolding close
take_client t d =
    let accepted = t.client_fd ∷ d.opened in
    let greeted = if t.greeted then accepted else close t.client_fd accepted in
    if t.created
    then record { opened = greeted; threads = t.client_fd ∷ d.threads }
    else record { opened = close t.client_fd greeted; threads = d.threads }

-- The loop, until `accept` fails or the server stops.
unfoldable pub take_clients : List Taken → Descriptors → Descriptors
unfolding take_client
take_clients [] d = d
take_clients (t ∷ ts) d = take_clients ts (take_client t d)

-- `accept` returns a descriptor that is not open.
abbrev pub Unused : ℕ → List ℕ → Type 0
Unused fd [] = Unit
Unused fd (x ∷ xs) = (x ≢ fd) × Unused fd xs

abbrev pub still_open : Taken → Bool
still_open t = t.greeted && t.created

-- The descriptors of the clients that pass a test, in front of others.
abbrev pub kept : (Taken → Bool) → List Taken → List ℕ → List ℕ
kept p [] fds = fds
kept p (t ∷ ts) fds = kept p ts (if p t then t.client_fd ∷ fds else fds)

abbrev pub AllUnused : List Taken → List ℕ → Type 0
AllUnused [] fds = Unit
AllUnused (t ∷ ts) fds =
    Unused t.client_fd fds × AllUnused ts (if still_open t then t.client_fd ∷ fds else fds)

close-Unused : (fd : ℕ) (fds : List ℕ) → Unused fd fds → close fd fds ≡ fds
unfolding close
close-Unused fd [] h = refl
close-Unused fd (x ∷ fds) h =
    rw (close, differ x fd h.0) (ap (λ (l : List ℕ). x ∷ l) (close-Unused fd fds h.1))

close-taken : (fd : ℕ) (fds : List ℕ) → Unused fd fds → close fd (fd ∷ fds) ≡ fds
unfolding close
close-taken fd fds h = rw (close, ==_refl fd) (close-Unused fd fds h)

take_client-kept :
    (t : Taken) (d : Descriptors)
    → Unused t.client_fd d.opened
    → take_client t d ≡ record {
      opened = if still_open t then t.client_fd ∷ d.opened else d.opened;
      threads = if t.created then t.client_fd ∷ d.threads else d.threads;
    }
unfolding take_client
take_client-kept t d h = elim (Bool-cases t.greeted) [
  | inl g ↦ elim (Bool-cases t.created) [
    | inl c ↦ rw (take_client, g, c) refl
    | inr c ↦ rw (take_client, g, c, close-taken t.client_fd d.opened h) refl
  ]
  | inr g ↦ elim (Bool-cases t.created) [
    | inl c ↦ rw (take_client, g, c, close-taken t.client_fd d.opened h) refl
    | inr c ↦
        rw
          (
            take_client,
            g,
            c,
            close-taken t.client_fd d.opened h,
            close-Unused t.client_fd d.opened h,
          )
          refl
  ]
]

-- Behind the loop the descriptors that are open are those from before and those of the clients that were
-- greeted and have a thread; but a client has a thread, greeted or not, where it could be created. Each
-- descriptor from `accept` is not open then.
pub take_clients-kept :
    (ts : List Taken) (d : Descriptors)
    → AllUnused ts d.opened
    → take_clients ts d ≡ record {
      opened = kept still_open ts d.opened;
      threads = kept (λ t. t.created) ts d.threads;
    }
unfolding take_clients
take_clients-kept [] d h = refl
take_clients-kept (t ∷ ts) d h =
    rw (take_clients, take_client-kept t d h.0) (take_clients-kept ts _ h.1)
