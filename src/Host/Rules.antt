-- ===== src/Host/Rules.antt =====
-- Which calls a piece of code makes: it adds calls to those made so far, all of them with a
-- property. One rule for each way to build code.
use gratis.Base.{
  All-map_pred, ◌≡◌, refl, Bool, true, false, List, [], ◌∷◌, ◌++◌, String, if◌then◌else◌, All,
  All-append, append_assoc, sym, ap, ◌∙◌,
}
use gratis.Text.{Str}
use gratis.Host.{
  unless_missing, Error, Result, ok, err, Call, Trace, Env, M, continue, ◌>>=◌, pure, raise,
  attempt, wrap, ask, perform, run, run_with_output,
}

pub record Issues (P : Call → Type 0) {A : Type 0} (m : M A) : Type 0 where
  pub at : (t : Trace) → (cs : List Call) × ((m t).1 ≡ cs ++ t) × All P cs

module _ {P : Call → Type 0} {A : Type 0} where
  pub Issues-pure : (a : A) → Issues P (pure a)
  unfolding pure
  Issues-pure a = record { at = λ t. ([], refl, tt) }

  pub Issues-raise : (e : Error) → Issues P (raise {A = A} e)
  unfolding raise
  Issues-raise e = record { at = λ t. ([], refl, tt) }

  pub Issues-attempt : (m : M A) → Issues P m → Issues P (attempt m)
  unfolding attempt
  Issues-attempt m i = record { at = λ t. i.at t }

  pub Issues-wrap : (f : Error → Error) (m : M A) → Issues P m → Issues P (wrap f m)
  unfolding wrap
  Issues-wrap f m i = record { at = λ t. i.at t }

  pub Issues-if :
      (b : Bool) (m n : M A)
      → (b ≡ true → Issues P m)
      → (b ≡ false → Issues P n)
      → Issues P (if b then m else n)
  Issues-if true m n i j = i refl
  Issues-if false m n i j = j refl

module _ {P : Call → Type 0} where
  pub Issues-unless_missing :
      (f : Error → Error) (m : M (Unit {0})) → Issues P m → Issues P (unless_missing f m)
  unfolding unless_missing
  Issues-unless_missing f m i = record { at = λ t. i.at t }

  pub Issues-ask : (env : Env) (c : Call) → P c → Issues P (ask env c)
  unfolding ask
  Issues-ask env c p = record { at = λ t. (c ∷ [], refl, (p, tt)) }

  pub Issues-perform : (env : Env) (c : Call) → P c → Issues P (perform env c)
  unfolding perform
  Issues-perform env c p = record { at = λ t. (c ∷ [], refl, (p, tt)) }

  pub Issues-run :
      (env : Env) (f : String) (before : List Str) (name : Str) (args : List Str)
      → P (run name args)
      → Issues P (run_with_output env f before name args)
  unfolding run_with_output
  Issues-run env f before name args p = record { at = λ t. (run name args ∷ [], refl, (p, tt)) }

module _ {P : Call → Type 0} {A B : Type 0} where
  Issues-continue :
      (r : Result A) (f : A → M B) → ((a : A) → Issues P (f a)) → Issues P (continue r f)
  unfolding raise
  Issues-continue (ok a) f i = i a
  Issues-continue (err e) f i = Issues-raise e

  pub Issues-bind :
      (m : M A) (f : A → M B) → Issues P m → ((a : A) → Issues P (f a)) → Issues P (m >>= f)
  unfolding ◌>>=◌
  Issues-bind m f i j = record {
    at = λ t.
        let (cs, e, p) = i.at t in
        let (ds, e', q) = (Issues-continue (m t).0 f j).at (m t).1 in
        (ds ++ cs, e' ∙ ap (λ u. ds ++ u) e ∙ sym (append_assoc ds cs t), All-append P ds cs q p);
  }

pub Issues-mono :
    {P Q : Call → Type 0} {A : Type 0} {m : M A}
    → ((c : Call) → P c → Q c)
    → Issues P m
    → Issues Q m
Issues-mono {P} {Q} f i = record {
  at = λ t. let (cs, e, p) = i.at t in (cs, e, All-map_pred P Q f cs p);
}

pub ruleset issues_rules = (
  Issues-pure, Issues-raise, Issues-attempt, Issues-wrap, Issues-unless_missing, Issues-if,
  Issues-ask, Issues-perform, Issues-run, Issues-bind,
)
