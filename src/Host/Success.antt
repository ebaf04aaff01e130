-- ===== src/Host/Success.antt =====
-- What the success of a chain of calls says of its parts.
use gratis.Base.{some, none, Option, ◌∷◌, subst, refl, inr, inl, ◌≡◌}
use gratis.Host.{
  raised, Error, done, Call, pure, Reply, perform, Env, continue, Result-cases, ok, Trace, ◌>>=◌, M,
}

-- Where `m >>= f` succeeds, `m` does, and what `f` makes of its value.
pub bind-ok :
    {A B : Type 0} (m : M A) (f : A → M B) (t : Trace) (b : B)
    → ((m >>= f) t).0 ≡ ok b
    → (a : A) × ((m t).0 ≡ ok a) × (((m >>= f) t).1 ≡ (f a (m t).1).1) × ((f a (m t).1).0 ≡ ok b)
unfolding ◌>>=◌
bind-ok m f t b h = elim (Result-cases (m t).0) [
  | inl (e, q) ↦ let h' = subst (λ r. (continue r f (m t).1).0 ≡ ok b) q h in cc h'
  | inr (a, q) ↦ (a, q, rw q refl, subst (λ r. (continue r f (m t).1).0 ≡ ok b) q h)
]

raised-ok : (r a : Reply) (o : Option Error) → raised r o ≡ ok a → o ≡ none
raised-ok r a none h = refl
raised-ok r a (some e) h = cc h

pub perform-ok :
    (env : Env) (c : Call) (t : Trace) (a : Reply)
    → (perform env c t).0 ≡ ok a
    → (env t c).failure ≡ none
unfolding perform
perform-ok env c t a h = raised-ok (env t c) a (env t c).failure h

pub done-ok :
    (env : Env) (c : Call) (t : Trace)
    → (done (perform env c) t).0 ≡ ok tt
    → (env t c).failure ≡ none
done-ok env c t h =
    let (a, e, _, _) = bind-ok (perform env c) (λ _. pure tt) t tt h in perform-ok env c t a e

pub done-calls : (env : Env) (c : Call) (t : Trace) → (done (perform env c) t).1 ≡ c ∷ t
unfolding ◌>>=◌ perform pure
done-calls env c t = elim (Result-cases (raised (env t c) (env t c).failure)) [
  | inl (e, q) ↦ rw q refl
  | inr (a, q) ↦ rw q refl
]

raised-value : (r a : Reply) (o : Option Error) → raised r o ≡ ok a → a ≡ r
raised-value r a none h = cc h
raised-value r a (some e) h = cc h

pub perform-value :
    (env : Env) (c : Call) (t : Trace) (a : Reply) → (perform env c t).0 ≡ ok a → a ≡ env t c
unfolding perform
perform-value env c t a h = raised-value (env t c) a (env t c).failure h
