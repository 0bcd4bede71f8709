-- ===== src/Ingest/Unifi/Closed.antt =====
-- What a load leaves of the reader's session, and how it ends.
use taboot.Prelude.{ℕ, inl, inr, ◌+◌, ◌≡◌, refl, Text, false, Bool-cases, arith, if◌then◌else◌}
use taboot.Python.{Outcome, raised, Exec, lift, finally_do, handled, try_else, ◌>>=◌, ◌>>◌}
use taboot.Python.Triples.{Preserves, Preserves-bind, Preserves-then, Preserves-lift, Preserves-if}
use taboot.Python.Outcomes.{Outcome-cases}
use taboot.Ingest.Unifi.{
  Connection, Controller, Response, Topology, start_session, session_post, logout_url, logout,
  login, login_reply, handle_login, fetch, fetch_reply, handle_fetch, extract, read_topology,
  load_data, not_authenticated,
}

pub Preserves-handled :
    {S A B : Type 0} {P : S → Type 0} (h : Outcome A → Outcome B) (m : Exec S A)
    → Preserves P m
    → Preserves P (handled h m)
Preserves-handled h m k = record { at = λ s p. k.at s p }

module _ (c : Controller) (n : ℕ) where
  -- Beside `n` sessions, the reader's is open if it has one.
  abbrev Held : Connection → Type 0
  Held r = r.open_sessions ≡ (if r.session then n + 1 else n)

  post-Held :
      {A : Type 0} (url : Text) (reply : Response → Outcome A)
      → Preserves Held (session_post c url >>= λ response. lift (reply response))
  post-Held url reply =
      Preserves-bind _ _ (record { at = λ r h. h }) (λ response. Preserves-lift (reply response))

  login-Held : Preserves Held (login c)
  unfolding login
  login-Held =
      Preserves-then _ _ (record { at = opened })
        (Preserves-handled handle_login _ (post-Held _ login_reply))
    where
      opened : (r : Connection) → Held r → Held (start_session r)
      opened r h = elim (Bool-cases r.session) [
        | inl there ↦ rw there (rw there at h)
        | inr missing ↦ rw missing (let k : r.open_sessions ≡ n = rw missing at h in omega arith)
      ]

  fetch-Held : (path : Text) → Preserves Held (fetch c path)
  unfolding fetch
  fetch-Held path = record {
    at = λ r h.
        (Preserves-if {P = Held} r.session _ _
            (Preserves-handled handle_fetch _ (post-Held _ fetch_reply))
            (Preserves-lift (raised not_authenticated))).at
          r h;
  }

  read_topology-Held : Preserves Held (read_topology c)
  unfolding read_topology
  read_topology-Held = Preserves-then _ _ login-Held (
      Preserves-bind _ _ (fetch-Held _) (λ devices.
        Preserves-bind _ _ (fetch-Held _) (λ clients. Preserves-lift (extract c devices clients))))

-- A load of a reader that had no session, however its login, its requests and its reading of the answers
-- end: behind it the reader has no session and as many sessions are open as before, whether or not
-- the request of the logout raises; and the load returns or raises what its body did.
pub load_data-closes :
    (c : Controller) (r : Connection)
    → r.session ≡ false
    → let (outcome, after) = load_data c r in
      (after.session ≡ false)
      × (after.open_sessions ≡ r.open_sessions)
      × (outcome ≡ (read_topology c r).0)
unfolding load_data logout try_else ◌>>◌
load_data-closes c r none_yet =
    closed (read_topology c r) ((read_topology-Held c r.open_sessions).at r (rw none_yet refl))
  where
    closed :
        (p : Outcome Topology × Connection)
        → p.1.open_sessions ≡ (if p.1.session then r.open_sessions + 1 else r.open_sessions)
        → let (outcome, after) = finally_do (λ _. p) (logout c) r in
          (after.session ≡ false) × (after.open_sessions ≡ r.open_sessions) × (outcome ≡ p.0)
    closed (o, s) h = elim (Bool-cases s.session) [
      | inr missing ↦ rw missing (refl, rw missing at h, refl)
      | inl there ↦
          let k : s.open_sessions ≡ r.open_sessions + 1 = rw there at h in
          elim (Outcome-cases (c.post (logout_url c))) [
            | inl (response, answered) ↦ rw there (rw answered (refl, omega arith, refl))
            | inr (e, failed) ↦ rw there (rw failed (refl, omega arith, refl))
          ]
    ]
