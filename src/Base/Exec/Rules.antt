-- ===== src/Base/Exec/Rules.antt =====
-- Rules for computations over a store, one for each way to build one: what they leave as it is, and
-- what holds when they return and when they throw.
use mathlib.Core.Path.{◌≡◌, refl, sym, subst, ◌∙◌}
use mathlib.Core.Bool.{Bool, true, false}
use unicas.Base.Tests.{if◌then◌else◌}
use unicas.Base.Results.{Result, ok, err}
use unicas.Base.Exec.{
  Exec, return, throw, lift, reads, recover_from, recover, proceed, ◌>>=◌, throw_when,
}

-- The computation leaves what `view` shows of the store as it is.
pub record Frame {ℓ} {S E A C : Type ℓ} (view : S → C) (m : Exec S E A) : Type ℓ where
  pub same_view : (state : S) → view (m state).1 ≡ view state

module _ {ℓ} {S E A C : Type ℓ} (view : S → C) where
  pub Frame-return : (value : A) → Frame view (return {E = E} value)
  Frame-return value = record { same_view = λ state. refl }

  pub Frame-throw : (thrown : E) → Frame view (throw {A = A} thrown)
  Frame-throw thrown = record { same_view = λ state. refl }

  pub Frame-lift : (result : Result E A) → Frame view (lift result)
  Frame-lift result = record { same_view = λ state. refl }

  pub Frame-reads : (query : S → A) → Frame view (reads {E = E} query)
  Frame-reads query = record { same_view = λ state. refl }

  pub Frame-if :
      (test : Bool) (m n : Exec S E A)
      → Frame view m
      → Frame view n
      → Frame view (if test then m else n)
  Frame-if true m n hm hn = hm
  Frame-if false m n hm hn = hn

  recover_from-view :
      (result : Result E A) (handler : E → Exec S E A)
      → ((thrown : E) → Frame view (handler thrown))
      → (state : S) → view (recover_from result handler state).1 ≡ view state
  recover_from-view (ok value) handler h state = refl
  recover_from-view (err thrown) handler h state = (h thrown).same_view state

  pub Frame-recover :
      (m : Exec S E A) (handler : E → Exec S E A)
      → Frame view m
      → ((thrown : E) → Frame view (handler thrown))
      → Frame view (recover m handler)
  unfolding recover
  Frame-recover m handler hm h = record {
    same_view = λ state. recover_from-view (m state).0 handler h (m state).1 ∙ hm.same_view state;
  }

module _ {ℓ} {S E C : Type ℓ} (view : S → C) where
  pub Frame-throw_when : (test : Bool) (thrown : E) → Frame view (throw_when {S = S} test thrown)
  Frame-throw_when true thrown = record { same_view = λ state. refl }
  Frame-throw_when false thrown = record { same_view = λ state. refl }

module _ {ℓ} {S E A B C : Type ℓ} (view : S → C) where
  proceed-view :
      (result : Result E A) (next : A → Exec S E B)
      → ((value : A) → Frame view (next value))
      → (state : S) → view (proceed result next state).1 ≡ view state
  proceed-view (ok value) next h state = (h value).same_view state
  proceed-view (err thrown) next h state = refl

  pub Frame-bind :
      (m : Exec S E A) (next : A → Exec S E B)
      → Frame view m
      → ((value : A) → Frame view (next value))
      → Frame view (m >>= next)
  unfolding ◌>>=◌
  Frame-bind m next hm h = record {
    same_view = λ state. proceed-view (m state).0 next h (m state).1 ∙ hm.same_view state;
  }

-- What holds at the end: `Q` of what is returned, `I` after an error.
abbrev pub Ends {ℓ} : {S E A : Type ℓ} → (A → S → Type ℓ) → (S → Type ℓ) → Result E A → S → Type ℓ
Ends Q I (ok value) state = Q value state
Ends Q I (err thrown) state = I state

-- From a store with `P`, `m` returns with `Q` or throws with `I`.
pub record Triple {ℓ} {S E A : Type ℓ} (P : S → Type ℓ) (m : Exec S E A) (Q : A → S → Type ℓ)
    (I : S → Type ℓ) : Type ℓ where
  pub runs : (state : S) → P state → Ends Q I (m state).0 (m state).1

module _ {ℓ} {S E A : Type ℓ} (P : S → Type ℓ) (Q : A → S → Type ℓ) (I : S → Type ℓ) where
  pub Triple-return :
      (value : A) → ((state : S) → P state → Q value state) → Triple P (return {E = E} value) Q I
  Triple-return value h = record { runs = h }

  pub Triple-throw : (thrown : E) → ((state : S) → P state → I state) → Triple P (throw thrown) Q I
  Triple-throw thrown h = record { runs = h }

  pub Triple-lift :
      (result : Result E A)
      → ((value : A) → (state : S) → P state → Q value state)
      → ((state : S) → P state → I state)
      → Triple P (lift result) Q I
  Triple-lift (ok value) h g = record { runs = h value }
  Triple-lift (err thrown) h g = record { runs = g }

  pub Triple-lift_ok :
      (result : Result E A)
      → ((value : A) → (state : S) → P state → result ≡ ok value → Q value state)
      → ((state : S) → P state → I state)
      → Triple P (lift result) Q I
  Triple-lift_ok (ok value) h g = record { runs = λ state p. h value state p refl }
  Triple-lift_ok (err thrown) h g = record { runs = g }

  pub Triple-reads :
      (query : S → A)
      → ((state : S) → P state → Q (query state) state)
      → Triple P (reads {E = E} query) Q I
  Triple-reads query h = record { runs = h }

  pub Triple-if :
      (test : Bool) (m n : Exec S E A)
      → Triple P m Q I
      → Triple P n Q I
      → Triple P (if test then m else n) Q I
  Triple-if true m n hm hn = hm
  Triple-if false m n hm hn = hn

  Ends-weaken :
      {Q' : A → S → Type ℓ} (result : Result E A) (state : S)
      → ((value : A) (s : S) → Q' value s → Q value s)
      → Ends Q' I result state
      → Ends Q I result state
  Ends-weaken (ok value) state g h = g value state h
  Ends-weaken (err thrown) state g h = h

  pub Triple-weaken :
      (m : Exec S E A) (P' : S → Type ℓ) (Q' : A → S → Type ℓ)
      → ((state : S) → P state → P' state)
      → ((value : A) (state : S) → Q' value state → Q value state)
      → Triple P' m Q' I
      → Triple P m Q I
  Triple-weaken m P' Q' f g h = record {
    runs = λ state p. Ends-weaken (m state).0 (m state).1 g (h.runs state (f state p));
  }

  Ends-error :
      (J : S → Type ℓ) (result : Result E A) (state : S)
      → ((s : S) → J s → I s)
      → Ends Q J result state
      → Ends Q I result state
  Ends-error J (ok value) state g h = h
  Ends-error J (err thrown) state g h = g state h

  pub Triple-error :
      (J : S → Type ℓ) {m : Exec S E A}
      → ((state : S) → J state → I state)
      → Triple P m Q J
      → Triple P m Q I
  Triple-error J {m} g h = record {
    runs = λ state p. Ends-error J (m state).0 (m state).1 g (h.runs state p);
  }

  Ends-recover :
      (result : Result E A) (handler : E → Exec S E A) (J : S → Type ℓ)
      → ((thrown : E) → Triple J (handler thrown) Q I)
      → (state : S) → Ends Q J result state
      → Ends Q I (recover_from result handler state).0 (recover_from result handler state).1
  Ends-recover (ok value) handler J h state e = e
  Ends-recover (err thrown) handler J h state e = (h thrown).runs state e

  pub Triple-recover :
      (m : Exec S E A) (handler : E → Exec S E A) (J : S → Type ℓ)
      → Triple P m Q J
      → ((thrown : E) → Triple J (handler thrown) Q I)
      → Triple P (recover m handler) Q I
  unfolding recover
  Triple-recover m handler J hm h = record {
    runs = λ state p. Ends-recover (m state).0 handler J h (m state).1 (hm.runs state p);
  }

module _ {ℓ} {S E A B : Type ℓ} (P : S → Type ℓ) (R : A → S → Type ℓ) (Q : B → S → Type ℓ)
    (I : S → Type ℓ) where
  Ends-proceed :
      (result : Result E A) (next : A → Exec S E B)
      → ((value : A) → Triple (R value) (next value) Q I)
      → (state : S) → Ends R I result state
      → Ends Q I (proceed result next state).0 (proceed result next state).1
  Ends-proceed (ok value) next h state e = (h value).runs state e
  Ends-proceed (err thrown) next h state e = e

  pub Triple-bind :
      (m : Exec S E A) (next : A → Exec S E B)
      → Triple P m R I
      → ((value : A) → Triple (R value) (next value) Q I)
      → Triple P (m >>= next) Q I
  unfolding ◌>>=◌
  Triple-bind m next hm h = record {
    runs = λ state p. Ends-proceed (m state).0 next h (m state).1 (hm.runs state p);
  }

module _ {ℓ} {S E : Type ℓ} (P : S → Type ℓ) where
  -- What follows a guard may use that its test was false.
  pub Triple-throw_when :
      (test : Bool) (thrown : E)
      → Triple P (throw_when {S = S} test thrown) (λ _ state. P state × (test ≡ false)) P
  Triple-throw_when true thrown = record { runs = λ state p. p }
  Triple-throw_when false thrown = record { runs = λ state p. (p, refl) }

module _ {ℓ} {S E A C : Type ℓ} (view : S → C) (P : C → Type ℓ) where
  Ends-view :
      (result : Result E A) (state : S)
      → P (view state)
      → Ends (λ _ s. P (view s)) (λ s. P (view s)) result state
  Ends-view (ok value) state p = p
  Ends-view (err thrown) state p = p

  -- A frame keeps what depends on its view only.
  pub Triple-Frame :
      (m : Exec S E A)
      → Frame view m
      → Triple (λ s. P (view s)) m (λ _ s. P (view s)) (λ s. P (view s))
  Triple-Frame m h = record {
    runs = λ state p. Ends-view (m state).0 (m state).1 (subst P (sym (h.same_view state)) p);
  }

-- What holds after a computation that returned.
pub Triple-ok {ℓ} :
    {S E A : Type ℓ} {P : S → Type ℓ} {m : Exec S E A} {Q : A → S → Type ℓ} {I : S → Type ℓ}
    → Triple P m Q I
    → (state state' : S) (value : A) → P state
    → m state ≡ (ok value, state')
    → Q value state'
Triple-ok {S = S} {E = E} {A = A} {Q = Q} {I = I} t state state' value p h =
    subst (λ (x : Result E A × S). Ends Q I x.0 x.1) h (t.runs state p)
