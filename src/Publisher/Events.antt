-- ===== src/Publisher/Events.antt =====
-- The events of a publication: `appendPublicationEvent` of apps/publisher/src/index.ts.
pub mod Numbering
pub mod Appending
use situation_studio.Prelude.{
  ℕ, suc, Bool, true, false, ◌&&◌, List, [], ◌∷◌, ◌++◌, Uuid, ◌==◌, str_eq, ltb, if◌then◌else◌, any,
}
use situation_studio.Store.{PublicationEvent, EventKind, Scalar, absent, flag, number, text}
use situation_studio.Publisher.Tables.{Studio}

abbrev kind_index : EventKind → ℕ
kind_index EventKind.pointer_observed = 0
kind_index EventKind.conflicted = 1
kind_index EventKind.snapshot_built = 2
kind_index EventKind.validated = 3
kind_index EventKind.release_inserted = 4
kind_index EventKind.pointer_advanced = 5
kind_index EventKind.verified = 6
kind_index EventKind.restore_started = 7
kind_index EventKind.restored = 8
kind_index EventKind.recovery_required = 9
kind_index EventKind.succeeded = 10
kind_index EventKind.failed = 11

abbrev bool_eq : Bool → Bool → Bool
bool_eq true b = b
bool_eq false true = false
bool_eq false false = true

abbrev scalar_eq : Scalar → Scalar → Bool
scalar_eq absent absent = true
scalar_eq (flag a) (flag b) = bool_eq a b
scalar_eq (number a) (number b) = a == b
scalar_eq (text a) (text b) = str_eq a b
scalar_eq _ _ = false

-- `canonicalJson(existing.payload) === canonicalJson(payload)`.
unfoldable pub payload_eq : List Scalar → List Scalar → Bool
payload_eq [] [] = true
payload_eq [] (y ∷ ys) = false
payload_eq (x ∷ xs) [] = false
payload_eq (x ∷ xs) (y ∷ ys) = scalar_eq x y && payload_eq xs ys

abbrev pub of_job : Uuid → PublicationEvent → Bool
of_job job_id e = e.job_id == job_id

abbrev pub is_duplicate : Uuid → EventKind → List Scalar → PublicationEvent → Bool
is_duplicate job_id kind payload e =
    of_job job_id e && kind_index e.kind == kind_index kind && payload_eq e.payload payload

module _ {ℓ} {A : Type ℓ} where
  -- The aggregate `_max` over the rows that pass, 0 for none.
  unfoldable pub greatest : (A → Bool) → (A → ℕ) → List A → ℕ
  greatest p f [] = 0
  greatest p f (x ∷ xs) =
      let rest = greatest p f xs in if p x then (if ltb rest (f x) then f x else rest) else rest

unfoldable pub append_publication_event : Uuid → EventKind → List Scalar → Studio → Studio
append_publication_event job_id kind payload s =
    if any (is_duplicate job_id kind payload) s.events then s else record s {
      events =
          s.events
          ++ record {
            job_id = job_id;
            sequence = suc (greatest (of_job job_id) (λ e. e.sequence) s.events);
            kind = kind;
            payload = payload;
          }
            ∷ [];
    }
