-- ===== src/AppGc/Fuel.antt =====
-- The loop of collectSpaceGarbage in packages/service/src/app-gc.ts ends by itself.
use unicas.Base.{
  ℕ, zero, suc, ◌-◌, ◌≤◌, ◌≡◌, refl, Bool, true, false, ◌||◌, Result, ok, err, if◌then◌else◌, ◌==◌,
  arith,
}
use unicas.Base.Text.{Text}
use unicas.Base.Exec.{Exec, lift, proceed, ◌>>=◌}
use unicas.AppGc.{
  AppGcError, GcReply, answer_of, SpaceTotals, no_nodes, add_pass, passes, collect_space_garbage,
}

module _ {S A : Type 0} where
  proceed-eq :
      {B : Type 0} (result : Result AppGcError B) (f g : B → Exec S AppGcError A) (s : S)
      → ((b : B) (s' : S) → f b s' ≡ g b s')
      → proceed result f s ≡ proceed result g s
  proceed-eq (ok b) f g s h = h b s
  proceed-eq (err thrown) f g s h = refl

  bind-eq :
      {B : Type 0} (m : Exec S AppGcError B) (f g : B → Exec S AppGcError A) (s : S)
      → ((b : B) (s' : S) → f b s' ≡ g b s')
      → (m >>= f) s ≡ (m >>= g) s
  unfolding ◌>>=◌
  bind-eq m f g s h = proceed-eq (m s).0 f g (m s).1 h

  else-eq :
      (test : Bool) (m f g : Exec S AppGcError A) (s : S)
      → (test ≡ false → f s ≡ g s)
      → (if test then m else f) s ≡ (if test then m else g) s
  else-eq true m f g s h = refl
  else-eq false m f g s h = h refl

module _ {S : Type 0} (fetch : Text → Text → ℕ → Exec S AppGcError GcReply) (app_id : Text) where
  passes-zero :
      (space_id : Text) (fuel : ℕ) (totals : SpaceTotals) (s : S)
      → passes fetch app_id space_id fuel 0 totals s ≡ (ok totals, s)
  unfolding passes
  passes-zero space_id zero totals s = refl
  passes-zero space_id (suc fuel) totals s = refl

  passes-fuel :
      (space_id : Text) (fuel fuel' remaining : ℕ) (totals : SpaceTotals) (s : S)
      → remaining ≤ fuel
      → remaining ≤ fuel'
      → passes fetch app_id space_id fuel remaining totals s
        ≡ passes fetch app_id space_id fuel' remaining totals s
  unfolding passes
  passes-fuel space_id fuel fuel' zero totals s p q =
      rw (passes-zero space_id fuel totals s, passes-zero space_id fuel' totals s)
  passes-fuel space_id zero fuel' (suc remaining) totals s p q = ground (arith, p)
  passes-fuel space_id (suc fuel) zero (suc remaining) totals s p q = ground (arith, q)
  passes-fuel space_id (suc fuel) (suc fuel') (suc remaining) totals s p q =
      else-eq (suc remaining == 0) _ _ _ s (λ _.
        bind-eq (fetch app_id space_id (suc remaining)) _ _ s (λ reply s'.
          bind-eq (lift (answer_of (suc remaining) reply)) _ _ s' (λ pass s''.
            else-eq (pass.examined == 0 || pass.deleted == 0) _ _ _ s'' (λ more.
              passes-fuel space_id fuel fuel' (suc remaining - pass.examined) (add_pass pass totals)
                s'' (ground (arith, more, p)) (ground (arith, more, q))))))

  -- The loop that collects a Space ends by itself, after no more passes than its greatest number of
  -- nodes: any greater bound on the passes gives the same answer and store.
  pub collect_space_garbage-passes :
      (space_id : Text) (max_nodes fuel : ℕ) (s : S)
      → max_nodes ≤ fuel
      → collect_space_garbage fetch app_id space_id max_nodes s
        ≡ passes fetch app_id space_id fuel max_nodes no_nodes s
  unfolding collect_space_garbage
  collect_space_garbage-passes space_id max_nodes fuel s p =
      passes-fuel space_id max_nodes fuel max_nodes no_nodes s (omega arith) p
