-- ===== src/Brain/Order.antt =====
-- The decision does not depend on the order in which the rules are loaded.
use mathlib.Core.List.{Permᴰ}
use fielded_online.Common.{
  ℕ, ◌≡◌, refl, sym, ◌∙◌, Bool, false, not, ◌&&◌, List, [], ◌∷◌, any, arith,
}
use fielded_online.Brain.Values.{Text, Value, Python}
use fielded_online.Brain.Evaluator.{
  Rule, MatchedRule, Verdict, is_deny, is_escalate, is_approval, is_empty, collect, evaluate_rule,
  evaluate_rules, evaluate,
}
use fielded_online.Brain.Conflicts.{clash, clash_comm, clashes}
use fielded_online.Brain.Decisions.{decided, evaluate-decided}

any-Permᴰ : {A : Type 0} (p : A → Bool) {xs ys : List A} → Permᴰ xs ys → any p xs ≡ any p ys
any-Permᴰ p Permᴰ.nil = refl
any-Permᴰ p (Permᴰ.cons e h) = ground (arith, any-Permᴰ p h)
any-Permᴰ p (Permᴰ.swap e f) = ground arith
any-Permᴰ p (Permᴰ.trans h k) = any-Permᴰ p h ∙ any-Permᴰ p k

clashes-Permᴰ : {ms ns : List MatchedRule} → Permᴰ ms ns → clashes ms ≡ clashes ns
unfolding clashes
clashes-Permᴰ Permᴰ.nil = refl
clashes-Permᴰ (Permᴰ.cons {a} {b} e h) = ground (arith, any-Permᴰ (clash a) h, clashes-Permᴰ h)
clashes-Permᴰ (Permᴰ.swap {a} {b} e f) = ground (arith, clash_comm a b)
clashes-Permᴰ (Permᴰ.trans h k) = clashes-Permᴰ h ∙ clashes-Permᴰ k

Permᴰ-refl : {A : Type 0} (xs : List A) → Permᴰ xs xs
Permᴰ-refl [] = Permᴰ.nil
Permᴰ-refl (x ∷ xs) = Permᴰ.cons refl (Permᴰ-refl xs)

collect_Permᴰ :
    (v : Verdict) (r s : List MatchedRule × List Text)
    → Permᴰ r.0 s.0
    → Permᴰ (collect v r).0 (collect v s).0
collect_Permᴰ Verdict.passed r s h = h
collect_Permᴰ (Verdict.lacks missing) r s h = h
collect_Permᴰ (Verdict.matches m) r s h = Permᴰ.cons refl h

collect_swap :
    (v w : Verdict) (r : List MatchedRule × List Text)
    → Permᴰ (collect v (collect w r)).0 (collect w (collect v r)).0
collect_swap (Verdict.matches m) (Verdict.matches n) r = Permᴰ.swap refl refl
collect_swap (Verdict.matches m) Verdict.passed r = Permᴰ-refl _
collect_swap (Verdict.matches m) (Verdict.lacks missing) r = Permᴰ-refl _
collect_swap Verdict.passed w r = Permᴰ-refl _
collect_swap (Verdict.lacks missing) w r = collect_Permᴰ w _ _ (Permᴰ-refl _)

lacks_any : Verdict → Bool
lacks_any Verdict.passed = false
lacks_any (Verdict.lacks missing) = not (is_empty missing)
lacks_any (Verdict.matches m) = false

collect-is_empty :
    (v : Verdict) (r : List MatchedRule × List Text)
    → is_empty (collect v r).1 ≡ (not (lacks_any v) && is_empty r.1)
unfolding lacks_any
collect-is_empty Verdict.passed r = refl
collect-is_empty (Verdict.lacks []) r = refl
collect-is_empty (Verdict.lacks (t ∷ missing)) r = refl
collect-is_empty (Verdict.matches m) r = refl

module _ (py : Python) (context_data : Value) where
  abbrev run : List Rule → List MatchedRule × List Text
  run = evaluate_rules py context_data

  evaluate_rules-Permᴰ : {rs ss : List Rule} → Permᴰ rs ss → Permᴰ (run rs).0 (run ss).0
  unfolding evaluate_rules
  evaluate_rules-Permᴰ Permᴰ.nil = Permᴰ.nil
  evaluate_rules-Permᴰ (Permᴰ.cons {b} e h) =
      rw e (collect_Permᴰ (evaluate_rule py context_data b) _ _ (evaluate_rules-Permᴰ h))
  evaluate_rules-Permᴰ (Permᴰ.swap {a'} {b'} {l} e f) =
      rw (e, f)
        (collect_swap (evaluate_rule py context_data b') (evaluate_rule py context_data a') (run l))
  evaluate_rules-Permᴰ (Permᴰ.trans h k) =
      Permᴰ.trans (evaluate_rules-Permᴰ h) (evaluate_rules-Permᴰ k)

  evaluate_rules-is_empty :
      {rs ss : List Rule} → Permᴰ rs ss → is_empty (run rs).1 ≡ is_empty (run ss).1
  unfolding evaluate_rules
  evaluate_rules-is_empty Permᴰ.nil = refl
  evaluate_rules-is_empty (Permᴰ.cons {b} {l₁} {l₂} e h) =
      rw
        (
          e,
          collect-is_empty (evaluate_rule py context_data b) (run l₁),
          collect-is_empty (evaluate_rule py context_data b) (run l₂),
          evaluate_rules-is_empty h,
        )
        refl
  evaluate_rules-is_empty (Permᴰ.swap {a'} {b'} {l} e f) =
      rw (e, f)
        (let v = evaluate_rule py context_data b' in
          let w = evaluate_rule py context_data a' in
          ground (
            arith,
            collect-is_empty v (collect w (run l)),
            collect-is_empty w (run l),
            collect-is_empty w (collect v (run l)),
            collect-is_empty v (run l),
          ))
  evaluate_rules-is_empty (Permᴰ.trans h k) = evaluate_rules-is_empty h ∙ evaluate_rules-is_empty k

  -- Two lists of the same rules, in whatever orders, lead to the same decision.
  pub evaluate-Permᴰ :
      (version : ℕ) {rs ss : List Rule}
      → Permᴰ rs ss
      → (evaluate py version rs context_data).decision
        ≡ (evaluate py version ss context_data).decision
  evaluate-Permᴰ version {rs} {ss} h =
      let matched = evaluate_rules-Permᴰ h in
      let e : decided (run rs).0 (run rs).1 ≡ decided (run ss).0 (run ss).1 =
        rw
          (
            clashes-Permᴰ matched,
            any-Permᴰ is_deny matched,
            any-Permᴰ is_escalate matched,
            any-Permᴰ is_approval matched,
            evaluate_rules-is_empty h,
          )
          refl in
      evaluate-decided py version rs context_data
      ∙ e
      ∙ sym (evaluate-decided py version ss context_data)
