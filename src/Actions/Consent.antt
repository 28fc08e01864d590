-- ===== src/Actions/Consent.antt =====
-- What the buttons do, against a list of what needs the user's consent: requests that remove something,
-- move or rename files, or forget what was recorded.
use moment_ferry.Common.{
  List, [], ◌∷◌, ◌++◌, Option, none, some, Bool, true, false, not, ◌&&◌, ◌||◌, Text, codes, text_eq,
  includes, arith, ◌≡◌, refl, inl, inr,
}
use moment_ferry.Actions.{
  post, delete, ApiRequest, Call, request, Answer, Program, done, raise, ask, prompt, tell, call,
  start_task, ◌>>=◌, catch, settled, await, joined, run_task, if_confirmed, with_found, Reply,
  TaskName, Event, asked, prompted, told, called, failed, began, Spot, Message, Input, agree, typed,
  answer, begin, outcome, run,
}

abbrev pub last : List Text → Text
last [] = []
last (x ∷ []) = x
last (x ∷ y ∷ xs) = last (y ∷ xs)

abbrev pub first : List Text → Text
first [] = []
first (x ∷ xs) = x

-- What the last segment of a POST's path says when it touches files or records: the last one is
-- automation/run, a whole cycle.
abbrev pub touching : List Text
touching =
    codes "transfers"
    ∷ codes "route-again"
    ∷ codes "retry"
    ∷ codes "rename-routed"
    ∷ codes "backfill"
    ∷ codes "forget-missing"
    ∷ codes "prune-operations"
    ∷ codes "run"
    ∷ []

-- Every DELETE but that of a camera mapping, and the POSTs above.
abbrev pub needs_consent : ApiRequest → Bool
needs_consent r = elim r.verb [
  | delete ↦ not (text_eq (first r.path) (codes "camera-mappings"))
  | post ↦ includes touching (last r.path)
  | _ ↦ false
]

abbrev pub call_needs_consent : Call → Bool
call_needs_consent (request r) = needs_consent r
call_needs_consent _ = false

-- In a run no request that needs consent is sent before the user agreed to a question of the run.
pub with_consent : Bool → List Event → Bool
with_consent given [] = true
with_consent given (asked q b ∷ es) = with_consent (given || b) es
with_consent given (called c ∷ es) = (not (call_needs_consent c) || given) && with_consent given es
with_consent given (e ∷ es) = with_consent given es

with_consent-given : (es : List Event) → with_consent true es ≡ true
unfolding with_consent
with_consent-given [] = refl
with_consent-given (asked q b ∷ es) = with_consent-given es
with_consent-given (called c ∷ es) = ground (arith, with_consent-given es)
with_consent-given (prompted q s ∷ es) = with_consent-given es
with_consent-given (told spot m ∷ es) = with_consent-given es
with_consent-given (failed m ∷ es) = with_consent-given es
with_consent-given (began name ∷ es) = with_consent-given es

with_consent-outcome :
    (given : Bool) (r : Answer) (es : List Event)
    → with_consent given (outcome r ++ es) ≡ with_consent given es
unfolding with_consent
with_consent-outcome given (inl reply) es = refl
with_consent-outcome given (inr message) es = refl

-- A program that sends no request that needs consent.
pub data Harmless (A : Type 0) : Program A → Type 0 where
  ends : (a : A) → Harmless A (done a)
  fails : (m : Text) → Harmless A (raise m)
  asks : (q : Text) (k : Bool → Program A) → ((b : Bool) → Harmless A (k b)) → Harmless A (ask q k)
  prompts :
      (q : Text) (k : Option Text → Program A)
      → ((s : Option Text) → Harmless A (k s))
      → Harmless A (prompt q k)
  tells : (spot : Spot) (m : Message) (p : Program A) → Harmless A p → Harmless A (tell spot m p)
  calls :
      (c : Call) (k : Answer → Program A)
      → call_needs_consent c ≡ false
      → ((r : Answer) → Harmless A (k r))
      → Harmless A (call c k)
  starts :
      (name : TaskName) (k : Option Answer → Program A)
      → ((r : Option Answer) → Harmless A (k r))
      → Harmless A (start_task name k)

pub Harmless-bind :
    {A B : Type 0} {p : Program A} {f : A → Program B}
    → Harmless A p
    → ((a : A) → Harmless B (f a))
    → Harmless B (p >>= f)
Harmless-bind (ends a) h = h a
Harmless-bind (fails m) h = fails m
Harmless-bind (asks q k g) h = asks q _ (λ b. Harmless-bind (g b) h)
Harmless-bind (prompts q k g) h = prompts q _ (λ s. Harmless-bind (g s) h)
Harmless-bind (tells spot m p g) h = tells spot m _ (Harmless-bind g h)
Harmless-bind (calls c k n g) h = calls c _ n (λ r. Harmless-bind (g r) h)
Harmless-bind (starts name k g) h = starts name _ (λ r. Harmless-bind (g r) h)

pub Harmless-catch :
    {A : Type 0} {p : Program A} {f : Text → Program A}
    → Harmless A p
    → ((m : Text) → Harmless A (f m))
    → Harmless A (catch p f)
Harmless-catch (ends a) h = ends a
Harmless-catch (fails m) h = h m
Harmless-catch (asks q k g) h = asks q _ (λ b. Harmless-catch (g b) h)
Harmless-catch (prompts q k g) h = prompts q _ (λ s. Harmless-catch (g s) h)
Harmless-catch (tells spot m p g) h = tells spot m _ (Harmless-catch g h)
Harmless-catch (calls c k n g) h = calls c _ n (λ r. Harmless-catch (g r) h)
Harmless-catch (starts name k g) h = starts name _ (λ r. Harmless-catch (g r) h)

Harmless-with_consent :
    {A : Type 0} {p : Program A}
    → Harmless A p
    → (given : Bool) (inputs : List Input) → with_consent given (run p inputs) ≡ true
unfolding run with_consent
Harmless-with_consent (ends a) given inputs = refl
Harmless-with_consent (fails m) given inputs = refl
Harmless-with_consent (tells spot m p g) given inputs = Harmless-with_consent g given inputs
Harmless-with_consent (asks q k g) given [] = refl
Harmless-with_consent (asks q k g) given (agree b ∷ inputs) =
    Harmless-with_consent (g b) (given || b) inputs
Harmless-with_consent (asks q k g) given (typed s ∷ inputs) = refl
Harmless-with_consent (asks q k g) given (answer r ∷ inputs) = refl
Harmless-with_consent (asks q k g) given (begin ∷ inputs) = refl
Harmless-with_consent (prompts q k g) given [] = refl
Harmless-with_consent (prompts q k g) given (typed s ∷ inputs) =
    Harmless-with_consent (g s) given inputs
Harmless-with_consent (prompts q k g) given (agree b ∷ inputs) = refl
Harmless-with_consent (prompts q k g) given (answer r ∷ inputs) = refl
Harmless-with_consent (prompts q k g) given (begin ∷ inputs) = refl
Harmless-with_consent (calls c k n g) given [] = rw n refl
Harmless-with_consent (calls c k n g) given (answer r ∷ inputs) =
    rw (n, with_consent-outcome given r (run (k r) inputs))
      (Harmless-with_consent (g r) given inputs)
Harmless-with_consent (calls c k n g) given (agree b ∷ inputs) = rw n refl
Harmless-with_consent (calls c k n g) given (typed s ∷ inputs) = rw n refl
Harmless-with_consent (calls c k n g) given (begin ∷ inputs) = rw n refl
Harmless-with_consent (starts name k g) given [] = refl
Harmless-with_consent (starts name k g) given (begin ∷ inputs) =
    Harmless-with_consent (g none) given inputs
Harmless-with_consent (starts name k g) given (answer r ∷ inputs) =
    rw (with_consent-outcome given r (run (k (some r)) inputs))
      (Harmless-with_consent (g (some r)) given inputs)
Harmless-with_consent (starts name k g) given (agree b ∷ inputs) = refl
Harmless-with_consent (starts name k g) given (typed s ∷ inputs) = refl

-- Every run of the program sends what needs consent after the user agreed.
pub record Careful (p : Program (Unit {0})) : Type 0 where
  pub at : (inputs : List Input) → with_consent false (run p inputs) ≡ true

pub Careful-Harmless : {p : Program (Unit {0})} → Harmless (Unit {0}) p → Careful p
Careful-Harmless h = record { at = Harmless-with_consent h false }

if_confirmed-with_consent :
    (question : Text) (body : Program (Unit {0})) (inputs : List Input)
    → with_consent false (run (if_confirmed question body) inputs) ≡ true
unfolding run with_consent
if_confirmed-with_consent question body [] = refl
if_confirmed-with_consent question body (agree true ∷ inputs) = with_consent-given (run body inputs)
if_confirmed-with_consent question body (agree false ∷ inputs) = refl
if_confirmed-with_consent question body (typed s ∷ inputs) = refl
if_confirmed-with_consent question body (answer r ∷ inputs) = refl
if_confirmed-with_consent question body (begin ∷ inputs) = refl

pub Careful-if_confirmed :
    (question : Text) (body : Program (Unit {0})) → Careful (if_confirmed question body)
Careful-if_confirmed question body = record { at = if_confirmed-with_consent question body }

pub Careful-with_found :
    {A : Type 0} (found : Option A) {k : A → Program (Unit {0})}
    → ((a : A) → Careful (k a))
    → Careful (with_found found k)
Careful-with_found none h = Careful-Harmless (ends tt)
Careful-with_found (some a) h = h a

pub settled-Harmless : (r : Answer) → Harmless Reply (settled r)
settled-Harmless (inl reply) = ends reply
settled-Harmless (inr m) = fails m

pub await-Harmless : (c : Call) → call_needs_consent c ≡ false → Harmless Reply (await c)
await-Harmless c n = calls c settled n settled-Harmless

pub joined-Harmless :
    (body : Program Reply)
    → Harmless Reply body
    → (r : Option Answer) → Harmless Reply (joined body r)
joined-Harmless body h none = h
joined-Harmless body h (some r) = settled-Harmless r

pub run_task-Harmless :
    (name : TaskName) (body : Program Reply)
    → Harmless Reply body
    → Harmless Reply (run_task name body)
run_task-Harmless name body h = starts name (joined body) (joined-Harmless body h)
