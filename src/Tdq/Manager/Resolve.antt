-- ===== src/Tdq/Manager/Resolve.antt =====
-- Indirect destinations: how far resolve_destination has to go.
use ibm_cics_emulation.Base.{
  ℕ, zero, suc, ◌↔◌, ◌<◌, ◌≤◌, none, some, inl, inr, ◌⊎◌, length, Bytes, bytes_eq, bytes_eq_iff,
  Dict, lookup, erase, contains, IsSorted, erase-IsSorted, length-erase, lookup-erase, to_upper,
  to_upper_idem, Option-cases, Bool-cases, ◌≡◌, ◌≢◌, refl, sym, subst, ap, ◌∙◌, arith,
}
use ibm_cics_emulation.Result.{Result, ok}
use ibm_cics_emulation.Tdq.Manager.{resolve, resolve_destination}

-- A resolution that comes to an end on some fuel does so on more.
resolve_more :
    (n k : ℕ) (m : Dict Bytes) (d x : Bytes) → n ≤ k → resolve n m d ≡ ok x → resolve k m d ≡ ok x
unfolding resolve
resolve_more zero k m d x l h = cc
resolve_more (suc n) zero m d x l h = elim l [ ]
resolve_more (suc n) (suc k) m d x l h = elim (Option-cases (lookup (to_upper d) m)) [
  | inl e ↦ ground (arith, e)
  | inr (t, e) ↦ ground (arith, e, resolve_more n k m t x (omega (arith, l)))
]

-- One step of a resolution, from a name in upper case.
name_step : ℕ → Dict Bytes → Bytes → Result Bytes
name_step n m name = elim (lookup name m) [ none ↦ ok name | some t ↦ resolve n m t ]

pub resolve-to_upper :
    (n : ℕ) (m : Dict Bytes) (d : Bytes) → resolve n m (to_upper d) ≡ resolve n m d
unfolding resolve name_step
resolve-to_upper zero m d = refl
resolve-to_upper (suc n) m d = ap (λ z. name_step n m z) (to_upper_idem d)

-- What a resolution ends at is no indirect destination.
resolve_end : (n : ℕ) (m : Dict Bytes) (d x : Bytes) → resolve n m d ≡ ok x → lookup x m ≡ none
unfolding resolve
resolve_end zero m d x h = cc
resolve_end (suc n) m d x h = elim (Option-cases (lookup (to_upper d) m)) [
  | inl e ↦ ground (arith, e)
  | inr (t, e) ↦ ground (arith, e, resolve_end n m t x)
]

-- A resolution either passes a name, and then is that of the name on no more fuel, or does without it.
resolve-erase :
    (n : ℕ) (m : Dict Bytes) (k d : Bytes)
    → ((j : ℕ) × (j ≤ n) × (resolve n m d ≡ resolve j m k))
      ⊎ (resolve n (erase k m) d ≡ resolve n m d)
unfolding resolve
resolve-erase zero m k d = inr refl
resolve-erase (suc n) m k d = elim (Bool-cases (bytes_eq (to_upper d) k)) [
  | inl y ↦
      let same : to_upper d ≡ k = (bytes_eq_iff (to_upper d) k).0 y in
      inl (
        suc n,
        omega arith,
        subst (λ z. resolve (suc n) m d ≡ resolve (suc n) m z) same
            (sym (resolve-to_upper (suc n) m d)),
      )
  | inr other ↦
      let there : lookup (to_upper d) (erase k m) ≡ lookup (to_upper d) m = ground (
        arith,
        lookup-erase k (to_upper d) m,
        bytes_eq_iff (to_upper d) k,
        bytes_eq_iff k (to_upper d),
        other,
      ) in
      elim (Option-cases (lookup (to_upper d) m)) [
        | inl e ↦ inr (rw (there, e, resolve))
        | inr (t, e) ↦ elim (resolve-erase n m k t) [
          | inl (j, l, h) ↦ inl (j, omega (arith, l), ground (arith, e, h))
          | inr h ↦ inr (ground (arith, there, e, h))
        ]
      ]
]

-- What is resolved without a name, and does not end at it, is resolved with it.
resolve_back :
    (n : ℕ) (m : Dict Bytes) (k d x : Bytes)
    → resolve n (erase k m) d ≡ ok x
    → lookup x m ≡ none
    → lookup k m ≢ none
    → resolve n m d ≡ ok x
unfolding resolve
resolve_back zero m k d x h e there = cc
resolve_back (suc n) m k d x h e there = elim (Option-cases (lookup (to_upper d) m)) [
  | inl q ↦ ground (arith, q, lookup-erase k (to_upper d) m, bytes_eq_iff k (to_upper d))
  | inr (t, q) ↦
      ground (
        arith,
        q,
        lookup-erase k (to_upper d) m,
        bytes_eq_iff k (to_upper d),
        resolve_back n m k t x,
      )
]

shorter :
    (k : Bytes) (m : Dict Bytes) (t : Bytes)
    → IsSorted m
    → lookup k m ≡ some t
    → length (erase k m) < length m
unfolding contains
shorter k m t s e = ground (arith, length-erase k m s, e)

step_to :
    (l : ℕ) (m : Dict Bytes) (d t : Bytes)
    → lookup (to_upper d) m ≡ some t
    → resolve (suc (suc l)) m d ≡ resolve (suc l) m t
unfolding resolve
step_to l m d t e = rw (e, resolve)

-- From the target of an indirect destination on, without that destination.
through :
    (n l : ℕ) (m : Dict Bytes) (d t x : Bytes)
    → ((l' : ℕ) (m' : Dict Bytes)
        → length m' ≤ l'
        → IsSorted m'
        → resolve n m' t ≡ ok x
        → resolve (suc l') m' t ≡ ok x)
    → length m ≤ l
    → IsSorted m
    → lookup (to_upper d) m ≡ some t
    → resolve n m t ≡ ok x
    → resolve n (erase (to_upper d) m) t ≡ ok x
    → resolve (suc l) m d ≡ ok x
unfolding resolve
through n zero m d t x ih ml s e h e' =
    let none_left : ⊥ = omega (arith, shorter (to_upper d) m t s e, ml) in elim none_left [ ]
through n (suc l) m d t x ih ml s e h e' =
    let k = to_upper d in
    let small : length (erase k m) ≤ l = omega (arith, shorter k m t s e, ml) in
    let less = ih l (erase k m) small (erase-IsSorted k m s) e' in
    let there : lookup k m ≢ none = λ q. ground (arith, e, q) in
    let full : resolve (suc l) m t ≡ ok x =
      resolve_back (suc l) m k t x less (resolve_end n m t x h) there in
    subst (λ z. z ≡ ok x) (sym (step_to l m d t e)) full

resolve_enough :
    (b l n : ℕ) (m : Dict Bytes) (d x : Bytes)
    → n ≤ b
    → length m ≤ l
    → IsSorted m
    → resolve n m d ≡ ok x
    → resolve (suc l) m d ≡ ok x
unfolding resolve
resolve_enough zero l n m d x nb ml s h = ground (arith, h)
resolve_enough (suc b) l zero m d x nb ml s h = cc
resolve_enough (suc b) l (suc n) m d x nb ml s h = elim (Option-cases (lookup (to_upper d) m)) [
  | inl e ↦ ground (arith, e, h)
  | inr (t, e) ↦
      let k = to_upper d in
      let h' : resolve n m t ≡ ok x = ground (arith, e, h) in
      elim (resolve-erase n m k t) [
        | inl (j, jn, same) ↦
            let back : resolve j m d ≡ ok x = sym (resolve-to_upper j m d) ∙ sym same ∙ h' in
            resolve_enough b l j m d x (omega (arith, jn, nb)) ml s back
        | inr same ↦
            through n l m d t x
              (λ l' m' ml' s' g. resolve_enough b l' n m' t x (omega (arith, nb)) ml' s' g) ml s e
              h' (same ∙ h')
      ]
]

-- The name at the end of the chain of indirect destinations that starts at a name, with every name on the way
-- read in upper case.
pub data Leads (m : Dict Bytes) : (from end : Bytes) → Type 0 where
  stops : (d : Bytes) → lookup (to_upper d) m ≡ none → Leads m d (to_upper d)
  goes : (d t x : Bytes) → lookup (to_upper d) m ≡ some t → Leads m t x → Leads m d x

resolve-Leads : (n : ℕ) (m : Dict Bytes) (d x : Bytes) → resolve n m d ≡ ok x → Leads m d x
unfolding resolve
resolve-Leads zero m d x h = cc
resolve-Leads (suc n) m d x h = elim (Option-cases (lookup (to_upper d) m)) [
  | inl e ↦
      let last : to_upper d ≡ x = ground (arith, h, e) in subst (λ z. Leads m d z) last (stops d e)
  | inr (t, e) ↦ goes d t x e (resolve-Leads n m t x (ground (arith, h, e)))
]

Leads-resolve : {m : Dict Bytes} {d x : Bytes} → Leads m d x → (n : ℕ) × (resolve n m d ≡ ok x)
unfolding resolve
Leads-resolve (stops d e) = (1, ground (arith, e))
Leads-resolve (goes d t x e l) = let (n, h) = Leads-resolve l in (suc n, ground (arith, e, h))

-- resolve_destination comes to an end at a name exactly if the chain of indirect destinations from the given
-- name, however long, leads to that name, where every name on the way is read in upper case. The names of
-- the indirect destinations are kept in ascending order.
pub resolve_destination-Leads :
    (m : Dict Bytes) (d x : Bytes) → IsSorted m → (resolve_destination m d ≡ ok x) ↔ Leads m d x
unfolding resolve_destination
resolve_destination-Leads m d x s = (
  resolve-Leads (suc (length m)) m d x,
  λ l.
      let (n, h) = Leads-resolve l in
      resolve_enough n (length m) n m d x (omega arith) (omega arith) s h,
)
