-- ===== src/PpLinkManager/Ensures.antt =====
-- What holds after a call that returns, rule by rule for the calls that handlers are made of.
use ldacs_mcsotdma.Prelude.{◌≡◌, refl, Bool, true, false, if◌then◌else◌}
use ldacs_mcsotdma.Prelude.Result.{Result, ok, err, Error, is_exception, runtime_error}
use ldacs_mcsotdma.Prelude.Calls.{Call, proceed, handled, throws, put_back, when}
use ldacs_mcsotdma.Table.State.{M}
use ldacs_mcsotdma.PpLinkManager.{PpLinkManager, World, Site, Pp, on_world, on_heap, on_rest}

module _ {S : Type 0} where
  -- The link after a call that returns; nothing is said of one that throws.
  abbrev pub Ensures : {A : Type 0} → (PpLinkManager → Type 0) → Result A × Site S → Type 0
  Ensures Q (ok a, s) = Q s.link
  Ensures Q (err e, s) = Unit {0}

  pub then-Ensures :
      {A B : Type 0} (P Q : PpLinkManager → Type 0) (f : A → Pp S B) (o : Result A × Site S)
      → Ensures P o
      → ((a : A) (s : Site S) → P s.link → Ensures Q (f a s))
      → Ensures Q (proceed f o)
  then-Ensures P Q f (ok a, s) p next = next a s p
  then-Ensures P Q f (err e, s) p next = tt

  pub weaken :
      {A : Type 0} (P Q : PpLinkManager → Type 0) (o : Result A × Site S)
      → Ensures P o
      → ((l : PpLinkManager) → P l → Q l)
      → Ensures Q o
  weaken P Q (ok a, s) p imp = imp s.link p
  weaken P Q (err e, s) p imp = tt

  -- The same rule with the calls written out.
  pub bind-Ensures :
      {A B : Type 0} (P Q : PpLinkManager → Type 0) (m : Pp S A) (f : A → Pp S B) (s : Site S)
      → Ensures P (m s)
      → ((a : A) (t : Site S) → P t.link → Ensures Q (f a t))
      → Ensures Q (proceed f (m s))
  bind-Ensures P Q m f s = then-Ensures P Q f (m s)

  thrown :
      (A : Type 0) (Q : PpLinkManager → Type 0) (s : Site S) (e : Error) (b : Bool)
      → Ensures {A = A} Q (if b then throws runtime_error s else (err e, s))
  thrown A Q s e true = tt
  thrown A Q s e false = tt

  pub try-Ensures :
      {A : Type 0} (Q : PpLinkManager → Type 0) (o : Result A × Site S)
      → Ensures Q o
      → Ensures Q (handled is_exception (throws runtime_error) o)
  try-Ensures {A} Q (ok a, s) p = p
  try-Ensures {A} Q (err e, s) p = thrown A Q s e (is_exception e)

  elsewhere-Ensures :
      {A T : Type 0} (Q : PpLinkManager → Type 0) (put : T → Site S) (o : Result A × T)
      → ((t : T) → Q (put t).link)
      → Ensures Q (put_back put o)
  elsewhere-Ensures Q put (ok a, t) p = p t
  elsewhere-Ensures Q put (err e, t) p = tt

  -- Calls that leave the link alone.
  pub heap-Ensures : {A : Type 0} (m : M A) (s : Site S) → Ensures (λ l. l ≡ s.link) (on_heap m s)
  heap-Ensures m s =
      elsewhere-Ensures (λ l. l ≡ s.link)
        (λ h. record s { world = record { heap = h; rest = s.world.rest } }) (m s.world.heap)
        (λ h. refl)

  pub rest-Ensures :
      {A : Type 0} (m : Call S A) (s : Site S) → Ensures (λ l. l ≡ s.link) (on_rest m s)
  rest-Ensures m s =
      elsewhere-Ensures (λ l. l ≡ s.link)
        (λ r. record s { world = record { heap = s.world.heap; rest = r } }) (m s.world.rest)
        (λ r. refl)

  pub world-Ensures :
      {A : Type 0} (m : Call (World S) A) (s : Site S) → Ensures (λ l. l ≡ s.link) (on_world m s)
  world-Ensures m s =
      elsewhere-Ensures (λ l. l ≡ s.link) (λ w. record s { world = w }) (m s.world) (λ w. refl)

  pub when-Ensures :
      (Q : PpLinkManager → Type 0) (b : Bool) (m : Pp S (Unit {0})) (s : Site S)
      → (b ≡ true → Ensures Q (m s))
      → (b ≡ false → Q s.link)
      → Ensures Q (when b m s)
  when-Ensures Q true m s p q = p refl
  when-Ensures Q false m s p q = q refl
