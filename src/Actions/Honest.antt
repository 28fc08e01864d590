-- ===== src/Actions/Honest.antt =====
-- What the buttons show of failures: rules for programs whose failures end in a message.
use moment_ferry.Common.{
  List, [], ◌∷◌, ◌++◌, Option, none, some, Bool, true, false, ◌&&◌, ◌||◌, Text, text_eq, ◌≡◌, refl,
  sym, ap, subst, inl, inr, arith,
}
use moment_ferry.Actions.{
  Call, Answer, Program, done, raise, ask, prompt, tell, call, start_task, ◌>>=◌, catch, settled,
  await, joined, run_task, if_confirmed, with_found, Reply, TaskName, Event, told, failed, Spot,
  Message, text, failing, Input, agree, typed, answer, begin, outcome, run,
}

-- The message is that of the failure.
abbrev pub mentions : Text → Message → Bool
mentions m (text s) = text_eq s m
mentions m (failing key s) = text_eq s m

abbrev pub tells_of : Text → List Event → Bool
tells_of m [] = false
tells_of m (told spot s ∷ es) = mentions m s || tells_of m es
tells_of m (e ∷ es) = tells_of m es

abbrev pub only_tells : List Event → Bool
only_tells [] = true
only_tells (told spot s ∷ es) = only_tells es
only_tells (e ∷ es) = false

-- After a failure a run shows the failure's message, and does nothing else than show texts.
pub reported : List Event → Bool
reported [] = true
reported (failed m ∷ es) = tells_of m es && only_tells es
reported (e ∷ es) = reported es

-- A program that only shows texts.
pub data Final (A : Type 0) : Program A → Type 0 where
  stops : (a : A) → Final A (done a)
  shows : (spot : Spot) (s : Message) (p : Program A) → Final A p → Final A (tell spot s p)

-- And one of them is the message.
pub data Telling (A : Type 0) (m : Text) : Program A → Type 0 where
  tells_it :
      (spot : Spot) (s : Message) (p : Program A)
      → mentions m s ≡ true
      → Final A p
      → Telling A m (tell spot s p)
  tells_later :
      (spot : Spot) (s : Message) (p : Program A) → Telling A m p → Telling A m (tell spot s p)

Final-only_tells :
    {A : Type 0} {p : Program A}
    → Final A p
    → (inputs : List Input) → only_tells (run p inputs) ≡ true
unfolding run
Final-only_tells (stops a) inputs = refl
Final-only_tells (shows spot s p f) inputs = Final-only_tells f inputs

Telling-only_tells :
    {A : Type 0} {m : Text} {p : Program A}
    → Telling A m p
    → (inputs : List Input) → only_tells (run p inputs) ≡ true
unfolding run
Telling-only_tells (tells_it spot s p e f) inputs = Final-only_tells f inputs
Telling-only_tells (tells_later spot s p g) inputs = Telling-only_tells g inputs

Telling-tells_of :
    {A : Type 0} {m : Text} {p : Program A}
    → Telling A m p
    → (inputs : List Input) → tells_of m (run p inputs) ≡ true
unfolding run
Telling-tells_of (tells_it spot s p e f) inputs = rw e refl
Telling-tells_of (tells_later spot s p g) inputs = ground (arith, Telling-tells_of g inputs)

-- A program whose failures are thrown at once.
pub data Strict (A : Type 0) : Program A → Type 0 where
  ends : (a : A) → Strict A (done a)
  throws : (m : Text) → Strict A (raise m)
  tells : (spot : Spot) (s : Message) (p : Program A) → Strict A p → Strict A (tell spot s p)
  calls :
      (c : Call) (k : Answer → Program A)
      → ((m : Text) → k (inr m) ≡ raise m)
      → ((r : Reply) → Strict A (k (inl r)))
      → Strict A (call c k)
  starts :
      (name : TaskName) (k : Option Answer → Program A)
      → ((m : Text) → k (some (inr m)) ≡ raise m)
      → ((r : Reply) → Strict A (k (some (inl r))))
      → Strict A (k none)
      → Strict A (start_task name k)

pub Strict-bind :
    {A B : Type 0} {p : Program A} {f : A → Program B}
    → Strict A p
    → ((a : A) → Strict B (f a))
    → Strict B (p >>= f)
Strict-bind (ends a) h = h a
Strict-bind (throws m) h = throws m
Strict-bind (tells spot s p g) h = tells spot s _ (Strict-bind g h)
Strict-bind {f = f} (calls c k e g) h =
    calls c _ (λ m. ap (λ p. p >>= f) (e m)) (λ r. Strict-bind (g r) h)
Strict-bind {f = f} (starts name k e g b) h =
    starts name _ (λ m. ap (λ p. p >>= f) (e m)) (λ r. Strict-bind (g r) h) (Strict-bind b h)

pub Strict-await : (c : Call) → Strict Reply (await c)
Strict-await c = calls c settled (λ m. refl) ends

pub Strict-run_task :
    (name : TaskName) {body : Program Reply} → Strict Reply body → Strict Reply (run_task name body)
Strict-run_task name {body} h = starts name (joined body) (λ m. refl) ends h

-- A program that reports its failures itself.
pub data Honest (A : Type 0) : Program A → Type 0 where
  ends : (a : A) → Honest A (done a)
  tells : (spot : Spot) (s : Message) (p : Program A) → Honest A p → Honest A (tell spot s p)
  asks : (q : Text) (k : Bool → Program A) → ((b : Bool) → Honest A (k b)) → Honest A (ask q k)
  prompts :
      (q : Text) (k : Option Text → Program A)
      → ((s : Option Text) → Honest A (k s))
      → Honest A (prompt q k)
  calls :
      (c : Call) (k : Answer → Program A)
      → ((m : Text) → Telling A m (k (inr m)))
      → ((r : Reply) → Honest A (k (inl r)))
      → Honest A (call c k)
  starts :
      (name : TaskName) (k : Option Answer → Program A)
      → ((m : Text) → Telling A m (k (some (inr m))))
      → ((r : Reply) → Honest A (k (some (inl r))))
      → Honest A (k none)
      → Honest A (start_task name k)

Final-Honest : {A : Type 0} {p : Program A} → Final A p → Honest A p
Final-Honest (stops a) = ends a
Final-Honest (shows spot s p f) = tells spot s p (Final-Honest f)

pub Telling-Honest : {A : Type 0} {m : Text} {p : Program A} → Telling A m p → Honest A p
Telling-Honest (tells_it spot s p e f) = tells spot s p (Final-Honest f)
Telling-Honest (tells_later spot s p g) = tells spot s p (Telling-Honest g)

Final-catch : {A : Type 0} {p : Program A} (h : Text → Program A) → Final A p → Final A (catch p h)
Final-catch h (stops a) = stops a
Final-catch h (shows spot s p f) = shows spot s _ (Final-catch h f)

Telling-catch :
    {A : Type 0} {m : Text} {p : Program A} (h : Text → Program A)
    → Telling A m p
    → Telling A m (catch p h)
Telling-catch h (tells_it spot s p e f) = tells_it spot s _ e (Final-catch h f)
Telling-catch h (tells_later spot s p g) = tells_later spot s _ (Telling-catch h g)

pub Honest-catch :
    {A : Type 0} {p : Program A} (h : Text → Program A) → Honest A p → Honest A (catch p h)
Honest-catch h (ends a) = ends a
Honest-catch h (tells spot s p g) = tells spot s _ (Honest-catch h g)
Honest-catch h (asks q k g) = asks q _ (λ b. Honest-catch h (g b))
Honest-catch h (prompts q k g) = prompts q _ (λ s. Honest-catch h (g s))
Honest-catch h (calls c k e g) = calls c _ (λ m. Telling-catch h (e m)) (λ r. Honest-catch h (g r))
Honest-catch h (starts name k e g b) =
    starts name _ (λ m. Telling-catch h (e m)) (λ r. Honest-catch h (g r)) (Honest-catch h b)

-- `try { p; f } catch { h }`, where `h` tells of every failure.
pub caught :
    {A B : Type 0} {p : Program A} (f : A → Program B) {h : Text → Program B}
    → Strict A p
    → ((a : A) → Honest B (catch (f a) h))
    → ((m : Text) → Telling B m (h m))
    → Honest B (catch (p >>= f) h)
caught f (ends a) g t = g a
caught f (throws m) g t = Telling-Honest (t m)
caught f (tells spot s p q) g t = tells spot s _ (caught f q g t)
caught {B = B} f {h = h} (calls c k e q) g t =
    calls c _ (λ m. subst (λ p. Telling B m (catch (p >>= f) h)) (sym (e m)) (t m))
      (λ r. caught f (q r) g t)
caught {B = B} f {h = h} (starts name k e q b) g t =
    starts name _ (λ m. subst (λ p. Telling B m (catch (p >>= f) h)) (sym (e m)) (t m))
      (λ r. caught f (q r) g t) (caught f b g t)

reported-answer :
    {A : Type 0} (r : Answer) (p : Answer → Program A) (inputs : List Input)
    → ((m : Text) → Telling A m (p (inr m)))
    → ((reply : Reply) → reported (run (p (inl reply)) inputs) ≡ true)
    → reported (outcome r ++ run (p r) inputs) ≡ true
unfolding reported
reported-answer (inl reply) p inputs t h = h reply
reported-answer (inr m) p inputs t h =
    rw (Telling-tells_of (t m) inputs) (Telling-only_tells (t m) inputs)

pub Honest-run :
    {A : Type 0} {p : Program A}
    → Honest A p
    → (inputs : List Input) → reported (run p inputs) ≡ true
unfolding run reported
Honest-run (ends a) inputs = refl
Honest-run (tells spot s p g) inputs = Honest-run g inputs
Honest-run (asks q k g) (agree b ∷ inputs) = Honest-run (g b) inputs
Honest-run (asks q k g) [] = refl
Honest-run (asks q k g) (typed s ∷ inputs) = refl
Honest-run (asks q k g) (answer r ∷ inputs) = refl
Honest-run (asks q k g) (begin ∷ inputs) = refl
Honest-run (prompts q k g) (typed s ∷ inputs) = Honest-run (g s) inputs
Honest-run (prompts q k g) [] = refl
Honest-run (prompts q k g) (agree b ∷ inputs) = refl
Honest-run (prompts q k g) (answer r ∷ inputs) = refl
Honest-run (prompts q k g) (begin ∷ inputs) = refl
Honest-run (calls c k e g) (answer r ∷ inputs) =
    reported-answer r k inputs e (λ reply. Honest-run (g reply) inputs)
Honest-run (calls c k e g) [] = refl
Honest-run (calls c k e g) (agree b ∷ inputs) = refl
Honest-run (calls c k e g) (typed s ∷ inputs) = refl
Honest-run (calls c k e g) (begin ∷ inputs) = refl
Honest-run (starts name k e g b) (begin ∷ inputs) = Honest-run b inputs
Honest-run (starts name k e g b) (answer r ∷ inputs) =
    reported-answer r (λ x. k (some x)) inputs e (λ reply. Honest-run (g reply) inputs)
Honest-run (starts name k e g b) [] = refl
Honest-run (starts name k e g b) (agree c ∷ inputs) = refl
Honest-run (starts name k e g b) (typed s ∷ inputs) = refl

pub Honest-if_confirmed :
    (q : Text) {body : Program (Unit {0})}
    → Honest (Unit {0}) body
    → Honest (Unit {0}) (if_confirmed q body)
Honest-if_confirmed q {body} h = asks q _ cases
  where
    cases : (b : Bool) → Honest (Unit {0}) (elim b [ true ↦ body | false ↦ done tt ])
    cases true = h
    cases false = ends tt

pub Honest-with_found :
    {A : Type 0} (found : Option A) {k : A → Program (Unit {0})}
    → ((a : A) → Honest (Unit {0}) (k a))
    → Honest (Unit {0}) (with_found found k)
Honest-with_found none h = ends tt
Honest-with_found (some a) h = h a
