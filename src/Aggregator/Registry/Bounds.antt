-- ===== src/Aggregator/Registry/Bounds.antt =====
-- The invariant of the registry, over every sequence of its operations.
use vectorhawkd.Base.{
  ℕ, ◌≤◌, ◌≡◌, refl, String, Bool, true, false, List, [], ◌∷◌, arith, length, length-take, All,
  All-insert, All-remove, All-adjust, IsUnique, insert-IsUnique, remove-IsUnique, adjust-IsUnique,
  weight, weight-insert, weight-remove, weight-adjust, Dict, adjust,
}
use vectorhawkd.Aggregator.Budget.{ToolBudget, reset}
use vectorhawkd.Aggregator.Backend.{BackendEntry, visible_tools, record_success, record_error}
use vectorhawkd.Aggregator.Backend.Health.{
  IsFlagged, record_error-IsFlagged, record_success-IsFlagged,
}
use vectorhawkd.Aggregator.Registry.{
  Registry, new, allot, truncate, load, load_all, register_backend, sort_by_priority,
  insert_by_priority, register_backends_with_priority, heal, mark_healthy, settle, shutdown,
  remove_backend,
}
use vectorhawkd.Aggregator.Registry.Grants.{IsWithin, allot_lem, allot-IsWithin}

abbrev pub tool_count : BackendEntry → ℕ
tool_count b = length b.tools

-- An entry stands under its own id, and its health flag agrees with its error count.
abbrev pub IsFiled : String × BackendEntry → Type 0
IsFiled p = (p.1.server_id ≡ p.0) × IsFlagged p.1

-- What holds of a budget and the backends loaded under it.
pub record IsLoaded (budget : ToolBudget) (backends : Dict BackendEntry) : Type 0 where
  pub within : IsWithin budget
  pub fits : weight tool_count backends ≤ budget.used
  pub unique : IsUnique backends
  pub filed : All IsFiled backends

abbrev pub IsValid : Registry → Type 0
IsValid r = IsLoaded r.budget r.backends

pub load-IsLoaded :
    (budget : ToolBudget) (backends : Dict BackendEntry) (e : BackendEntry)
    → IsFlagged e
    → IsLoaded budget backends
    → IsLoaded (load (budget, backends) e).0 (load (budget, backends) e).1
unfolding load
load-IsLoaded budget backends e g h =
    let n = length (visible_tools e) in
    let slots = (allot budget e.server_id n).1 in
    let (granted, used) = allot_lem budget e.server_id n h.within in
    record {
      within = allot-IsWithin budget e.server_id n h.within;
      fits = omega (
        arith,
        granted,
        used,
        h.fits,
        weight-insert tool_count e.server_id (truncate slots e) backends,
        length-take slots e.tools,
      );
      unique = insert-IsUnique e.server_id (truncate slots e) backends h.unique;
      filed = All-insert IsFiled e.server_id (truncate slots e) backends (refl, g) h.filed;
    }

load_all-IsLoaded :
    (budget : ToolBudget) (backends : Dict BackendEntry) (es : List BackendEntry)
    → All IsFlagged es
    → IsLoaded budget backends
    → IsLoaded (load_all (budget, backends) es).0 (load_all (budget, backends) es).1
unfolding load_all
load_all-IsLoaded budget backends [] g h = h
load_all-IsLoaded budget backends (e ∷ es) g h =
    load_all-IsLoaded (load (budget, backends) e).0 (load (budget, backends) e).1 es g.1
      (load-IsLoaded budget backends e g.0 h)

All-insert_by_priority {ℓ} :
    (P : BackendEntry → Type ℓ) (e : BackendEntry) (es : List BackendEntry)
    → P e
    → All P es
    → All P (insert_by_priority e es)
unfolding insert_by_priority
All-insert_by_priority P e [] p h = (p, tt)
All-insert_by_priority P e (x ∷ xs) p h = ground (arith, All-insert_by_priority P e xs p h.1)

pub All-sort_by_priority {ℓ} :
    (P : BackendEntry → Type ℓ) (es : List BackendEntry) → All P es → All P (sort_by_priority es)
unfolding sort_by_priority
All-sort_by_priority P [] h = tt
All-sort_by_priority P (e ∷ es) h =
    All-insert_by_priority P e (sort_by_priority es) h.0 (All-sort_by_priority P es h.1)

-- One atomic operation on the registry. A dispatch changes it by `settle` alone, at any time
-- after its lookup, so dispatches that overlap are sequences of these steps.
pub data Step : Registry → Registry → Type 0 where
  registered :
      (now : ℕ) (e : BackendEntry) (r : Registry) → IsFlagged e → Step r (register_backend now e r)
  reloaded :
      (now : ℕ) (es : List BackendEntry) (r : Registry)
      → All IsFlagged es
      → Step r (register_backends_with_priority now es r)
  removed : (id : String) (r : Registry) → Step r (remove_backend id r).0
  healed : (id : String) (r : Registry) → Step r (mark_healthy id r)
  settled : (id : String) (succeeded : Bool) (r : Registry) → Step r (settle id succeeded r)
  stopped : (r : Registry) → Step r (shutdown r)

pub data Reach : Registry → Type 0 where
  start : Reach new
  next : {r s : Registry} → Reach r → Step r s → Reach s

adjust-IsValid :
    (id : String) (f : BackendEntry → BackendEntry) (r : Registry)
    → ((b : BackendEntry) → tool_count (f b) ≡ tool_count b)
    → ((j : String) (b : BackendEntry) → IsFiled (j, b) → IsFiled (j, f b))
    → IsValid r
    → IsLoaded r.budget (adjust id f r.backends)
adjust-IsValid id f r same keeps h = record {
  within = h.within;
  fits = omega (arith, h.fits, weight-adjust tool_count id f r.backends same);
  unique = adjust-IsUnique id f r.backends h.unique;
  filed = All-adjust IsFiled id f r.backends keeps h.filed;
}

abbrev outcome : Bool → BackendEntry → BackendEntry
outcome true b = record_success b
outcome false b = (record_error b).0

settle-IsValid : (id : String) (s : Bool) (r : Registry) → IsValid r → IsValid (settle id s r)
unfolding settle record_success record_error
settle-IsValid id true r h =
    adjust-IsValid id record_success r (λ b. refl) (λ j b f. (f.0, record_success-IsFlagged b)) h
settle-IsValid id false r h =
    adjust-IsValid id (λ b. (record_error b).0) r (λ b. ground arith)
      (λ j b f. (ground arith, record_error-IsFlagged b f.1)) h

pub Step-IsValid : {r s : Registry} → Step r s → IsValid r → IsValid s
unfolding register_backend register_backends_with_priority remove_backend mark_healthy shutdown
Step-IsValid (registered now e r g) h = load-IsLoaded r.budget r.backends e g h
Step-IsValid (reloaded now es r g) h =
    load_all-IsLoaded (reset r.budget) [] (sort_by_priority es)
      (All-sort_by_priority IsFlagged es g)
      (record { within = omega arith; fits = omega arith; unique = tt; filed = tt })
Step-IsValid (removed id r) h = record {
  within = h.within;
  fits = omega (arith, h.fits, weight-remove tool_count id r.backends);
  unique = remove-IsUnique id r.backends h.unique;
  filed = All-remove IsFiled id r.backends h.filed;
}
Step-IsValid (healed id r) h =
    adjust-IsValid id heal r (λ b. ground arith) (λ j b f. ground (arith, f)) h
Step-IsValid (settled id s r) h = settle-IsValid id s r h
Step-IsValid (stopped r) h = record {
  within = omega arith;
  fits = omega arith;
  unique = tt;
  filed = tt;
}

-- In a registry reached by its operations, where no entry is registered as healthy with as many
-- errors as the threshold, the budget used is at most the limit, the loaded tools are at most the
-- budget used, no id stands twice, each entry stands under its own id, and a backend with as many
-- errors as the threshold is marked unhealthy.
pub Reach-IsValid : {r : Registry} → Reach r → IsValid r
Reach-IsValid start = record { within = omega arith; fits = omega arith; unique = tt; filed = tt }
Reach-IsValid (next r s) = Step-IsValid s (Reach-IsValid r)
