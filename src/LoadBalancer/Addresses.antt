-- ===== src/LoadBalancer/Addresses.antt =====
-- Which addresses the controller hands out.
use text.Mathlib.TextLemmas.{append_cancel_left}
use picoshift.Prelude.{
  ℕ, zero, suc, ◌+◌, ◌%◌, ◌<◌, String, ◌≡◌, ◌≢◌, sym, ap, ◌∙◌, Option, none, some, List, [], ◌∷◌,
  get_elem?, arith, Bool-cases, inl, inr, show, show-injective,
}
use picoshift.Prelude.Options.{unwrap_or}
use picoshift.Prelude.Text.Replace.{format}
use picoshift.LoadBalancer.{Service, StatusPatch, next_lb_ip, needs_ip, run}

-- The address of the octet that `n` leaves in a byte.
abbrev pub address : ℕ → String
address n = format ("10.254.0." ∷ show (n % 256) ∷ [])

address-injective : (m n : ℕ) → address m ≡ address n → m % 256 ≡ n % 256
address-injective m n e = show-injective _ _ (append_cancel_left "10.254.0." _ _ e)

shift : (o k : ℕ) → address ((o + 1) % 256 + k) ≡ address (o + suc k)
shift o k = ap (λ n. format ("10.254.0." ∷ show n ∷ [])) (omega arith)

first_or_later :
    (o : ℕ) (ns name : String) (rest : List StatusPatch) (k : ℕ) (p : StatusPatch)
    → o < 256
    → ((j : ℕ) → get_elem? rest j ≡ some p → p.ip ≡ address ((o + 1) % 256 + j))
    → get_elem? ((record { ns = ns; name = name; ip = (next_lb_ip o).0 }) ∷ rest) k ≡ some p
    → p.ip ≡ address (o + k)
unfolding next_lb_ip
first_or_later o ns name rest zero p h ih e = ground (
  arith,
  ap (λ n. format ("10.254.0." ∷ show n ∷ []))
      (let small : o ≡ (o + 0) % 256 = omega arith in small),
)
first_or_later o ns name rest (suc k) p h ih e = ih k e ∙ shift o k

-- The patch with the index `k` has the address of the octet `k` further than the first.
run-address :
    (o : ℕ) (events : List (Option Service)) (k : ℕ) (p : StatusPatch)
    → o < 256
    → get_elem? (run o events) k ≡ some p
    → p.ip ≡ address (o + k)
unfolding run next_lb_ip
run-address o [] k p h e = cc
run-address o (none ∷ events) k p h e = run-address o events k p h e
run-address o (some svc ∷ events) k p h e = elim (Bool-cases (needs_ip svc)) [
  | inl needed ↦
      first_or_later o (unwrap_or svc.namespace "") svc.name_any (run (next_lb_ip o).1 events) k p h
        (λ j e'. run-address ((o + 1) % 256) events j p (omega arith) e') (rw (needed, run) at e)
  | inr other ↦ run-address o events k p h (rw (other, run) at e)
]

-- Of any 256 patches in a row no two have one address.
pub run_distinct :
    (o : ℕ) (events : List (Option Service)) (i j : ℕ) (p q : StatusPatch)
    → o < 256
    → i < j
    → j < i + 256
    → get_elem? (run o events) i ≡ some p
    → get_elem? (run o events) j ≡ some q
    → p.ip ≢ q.ip
run_distinct o events i j p q h lt near ei ej same =
    let e =
      address-injective (o + i) (o + j)
        (sym (run-address o events i p h ei) ∙ same ∙ run-address o events j q h ej) in
    absurd (omega (arith, e))

-- Every 256th patch has an address that was given before, whether or not its Service still has it.
pub run_repeats :
    (o : ℕ) (events : List (Option Service)) (i : ℕ) (p q : StatusPatch)
    → o < 256
    → get_elem? (run o events) i ≡ some p
    → get_elem? (run o events) (i + 256) ≡ some q
    → p.ip ≡ q.ip
run_repeats o events i p q h ei ej =
    run-address o events i p h ei
    ∙ ap (λ n. format ("10.254.0." ∷ show n ∷ [])) (omega arith)
    ∙ sym (run-address o events (i + 256) q h ej)
