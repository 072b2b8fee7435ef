-- ===== src/Panels/Scopes.antt =====
-- The scopes of the panels' filters, `"ALL"|Row["status"]`, and `===` on the statuses of the warehouse.
use logi_track.Base.{
  ℕ, zero, suc, ◌≡◌, refl, sym, ◌↔◌, ◌⊎◌, inl, inr, Bool, true, ap, Eq, ◌==◌, eq_iff, enum_eq,
}
use logi_track.Panels.Rows.{
  TaskStatus, received, picked, dispatched, TransactionType, receipt, pick, dispatch,
}

abbrev pub task_status_place : TaskStatus → ℕ
task_status_place received = 0
task_status_place picked = 1
task_status_place dispatched = 2

abbrev pub task_status_at : ℕ → TaskStatus
task_status_at zero = received
task_status_at (suc zero) = picked
task_status_at _ = dispatched

pub task_status_back : (s : TaskStatus) → task_status_at (task_status_place s) ≡ s
task_status_back received = refl
task_status_back picked = refl
task_status_back dispatched = refl

instance abbrev pub task_status_eq : Eq TaskStatus
task_status_eq = enum_eq task_status_place task_status_at task_status_back

abbrev pub transaction_type_place : TransactionType → ℕ
transaction_type_place receipt = 0
transaction_type_place pick = 1
transaction_type_place dispatch = 2

abbrev pub transaction_type_at : ℕ → TransactionType
transaction_type_at zero = receipt
transaction_type_at (suc zero) = pick
transaction_type_at _ = dispatch

pub transaction_type_back :
    (s : TransactionType) → transaction_type_at (transaction_type_place s) ≡ s
transaction_type_back receipt = refl
transaction_type_back pick = refl
transaction_type_back dispatch = refl

instance abbrev pub transaction_type_eq : Eq TransactionType
transaction_type_eq = enum_eq transaction_type_place transaction_type_at transaction_type_back

pub data Scope (S : Type 0) : Type 0 where
  every : Scope S
  only : S → Scope S

-- `scope === "ALL" || row.status === scope`
unfoldable pub in_scope : {S : Type 0} ⦃e : Eq S⦄ → Scope S → S → Bool
in_scope every s = true
in_scope (only t) s = s == t

-- The scope is that of all rows, or that of this status.
abbrev pub InScope : {S : Type 0} → Scope S → S → Type 0
InScope {S} scope s = (scope ≡ every) ⊎ (scope ≡ only s)

status_of : {S : Type 0} → S → Scope S → S
status_of s every = s
status_of s (only t) = t

pub in_scope_iff :
    {S : Type 0} ⦃e : Eq S⦄ (scope : Scope S) (s : S) → (in_scope scope s ≡ true) ↔ InScope scope s
unfolding in_scope status_of
in_scope_iff every s = (λ _. inl refl, λ _. refl)
in_scope_iff ⦃e⦄ (only t) s =
    (λ h. inr (ap only (sym ((eq_iff s t).0 h))), λ h. (eq_iff s t).1 (same h))
  where
    same : InScope (only t) s → s ≡ t
    same (inl absent) = cc
    same (inr here) = sym (ap (status_of s) here)
