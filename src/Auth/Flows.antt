-- ===== src/Auth/Flows.antt =====
-- The login flows of api/src/tabayyun/auth/store.py.
use mathlib.Core.Option
use Prim.Native.Nat.{◌+◌}
use tabayyun.Prelude.{
  ℕ, ◌≡◌, refl, Bool, false, Option, none, some, String, List, [], ◌∷◌, ◌++◌, ◌==◌, ltb, first, any,
  delete, first-none, first-append_new, any-delete_self, ==_refl, any-delete_le,
}
use tabayyun.Db.{Db, LoginFlow}

-- `FLOW_TTL`
abbrev pub flow_ttl : ℕ
flow_ttl = 600000000

pub record Flow : Type 0 where
  pub state : String
  pub nonce : String
  pub code_verifier : String
  pub method : String
  pub next_path : String

abbrev pub has_hash : ℕ → LoginFlow → Bool
has_hash id_hash f = f.id_hash == id_hash

-- The drop of the expired flows, `created_at < now() - FLOW_TTL`.
unfoldable pub without_expired : ℕ → List LoginFlow → List LoginFlow
without_expired now flows = delete (λ f. ltb (f.created_at + flow_ttl) now) flows

unfoldable pub create_flow : ℕ → Flow → Db → Db
unfolding without_expired
create_flow id_hash flow db = record db {
  login_flows =
      without_expired db.now db.login_flows
      ++ record {
        id_hash = id_hash;
        state = flow.state;
        nonce = flow.nonce;
        code_verifier = flow.code_verifier;
        method = flow.method;
        next_path = flow.next_path;
        created_at = db.now;
      }
        ∷ [];
}

abbrev flow_of : LoginFlow → Flow
flow_of f = record {
  state = f.state;
  nonce = f.nonce;
  code_verifier = f.code_verifier;
  method = f.method;
  next_path = f.next_path;
}

-- `id_hash` is the key, so the DELETE returns one row at most.
unfoldable pub take_flow : ℕ → Db → Option (Flow × Bool) × Db
take_flow id_hash db = (
  Option.map (λ f. (flow_of f, ltb db.now (f.created_at + flow_ttl)))
      (first (has_hash id_hash) db.login_flows),
  record db { login_flows = delete (has_hash id_hash) db.login_flows },
)

module _ (id_hash : ℕ) (flow : Flow) (db : Db) where
  -- A flow of a fresh hash comes back as it was stored, at any later time, and is valid while it is
  -- younger than `FLOW_TTL`.
  pub take_flow-create_flow :
      (later : ℕ)
      → any (has_hash id_hash) db.login_flows ≡ false
      → (take_flow id_hash (record (create_flow id_hash flow db) { now = later })).0
        ≡ some (flow, ltb later (db.now + flow_ttl))
  unfolding take_flow create_flow without_expired
  take_flow-create_flow later fresh =
      let kept = delete (λ f. ltb (f.created_at + flow_ttl) db.now) db.login_flows in
      rw
        (first-append_new (has_hash id_hash) kept
          (record {
            id_hash = id_hash;
            state = flow.state;
            nonce = flow.nonce;
            code_verifier = flow.code_verifier;
            method = flow.method;
            next_path = flow.next_path;
            created_at = db.now;
          })
          (first-none (has_hash id_hash) kept (
            any-delete_le (has_hash id_hash) (λ f. ltb (f.created_at + flow_ttl) db.now)
              db.login_flows fresh))
          (==_refl id_hash))
        refl

-- A flow is single use: whoever takes it again, at whatever time, gets nothing.
pub take_flow-once :
    (id_hash : ℕ) (db : Db) (later : ℕ)
    → (take_flow id_hash (record (take_flow id_hash db).1 { now = later })).0 ≡ none
unfolding take_flow
take_flow-once id_hash db later =
    rw
      (first-none (has_hash id_hash) (delete (has_hash id_hash) db.login_flows)
        (any-delete_self (has_hash id_hash) db.login_flows))
      refl
