-- ===== src/Server/Frame.antt =====
-- What a computation of the handlers' monad keeps of the globals: a relation between the state
-- before and the state after, with a rule for each step that a handler is made of.
use mobile_chatting_app.Common.{ℕ, Bool, true, false, if◌then◌else◌, Option, none, some}
use mobile_chatting_app.Common.Bytes.{Bytes}
use mobile_chatting_app.Common.Decimal.{stoi}
use mobile_chatting_app.Server.Data.{ServerState}
use mobile_chatting_app.Server.World.{
  World, Result, ok, fault, M, case_option, pure, ◌>>=◌, ◌>>◌, get, modify, exec, has_db, call,
  send_message, log_activity, to_int, monad,
}

-- A relation that composes.
pub record Frame : Type 1 where
  pub Same : ServerState → ServerState → Type 0
  pub same_refl : (s : ServerState) → Same s s
  pub same_trans : (s t u : ServerState) → Same s t → Same t u → Same s u

abbrev pub After : {D A : Type 0} → Result D A → (A → World D → Type 0) → Type 0
After fault P = Unit
After (ok a w) P = P a w

-- Every run of `m` that ends without a fault relates the states before and after it.
pub record Keeps {D A : Type 0} (F : Frame) (m : M D A) : Type 0 where
  pub keeps : (w : World D) → After (m w) (λ _ w'. F.Same w.state w'.state)

module _ {D : Type 0} (F : Frame) where
  open F use {Same, same_refl, same_trans}

  After-bind :
      {A B : Type 0} (s : ServerState) (r : Result D A) (f : A → M D B)
      → After r (λ _ w'. Same s w'.state)
      → ((a : A) → Keeps F (f a))
      → After (elim r [ fault ↦ fault | ok a w' ↦ f a w' ]) (λ _ w'. Same s w'.state)
  After-bind s fault f h k = tt
  After-bind s (ok a w) f h k = After-trans s w.state (f a w) h ((k a).keeps w)
    where
      After-trans :
          {B : Type 0} (s t : ServerState) (r : Result D B)
          → Same s t
          → After r (λ _ w'. Same t w'.state)
          → After r (λ _ w'. Same s w'.state)
      After-trans s t fault h k = tt
      After-trans s t (ok b w) h k = same_trans s t w.state h k

module _ {D : Type 0} {F : Frame} where
  pub Keeps-bind :
      {A B : Type 0} {m : M D A} {f : A → M D B}
      → Keeps F m
      → ((a : A) → Keeps F (f a))
      → Keeps F (m >>= f)
  unfolding monad
  Keeps-bind {m = m} {f = f} h k = record {
    keeps = λ w. After-bind F w.state (m w) f (h.keeps w) k;
  }

  pub Keeps-then :
      {B : Type 0} {m : M D (Unit {0})} {k : M D B} → Keeps F m → Keeps F k → Keeps F (m >> k)
  unfolding monad
  Keeps-then {m = m} {k = k} h hk = record {
    keeps = λ w. After-bind F w.state (m w) (λ _. k) (h.keeps w) (λ _. hk);
  }

  pub Keeps-if :
      {A : Type 0} (b : Bool) {x y : M D A} → Keeps F x → Keeps F y → Keeps F (if b then x else y)
  Keeps-if true hx hy = hx
  Keeps-if false hx hy = hy

  pub Keeps-case :
      {A B : Type 0} (o : Option A) {x : M D B} {f : A → M D B}
      → Keeps F x
      → ((a : A) → Keeps F (f a))
      → Keeps F (case_option o x f)
  Keeps-case none hx hf = hx
  Keeps-case (some a) hx hf = hf a

  pub Keeps-pure : {A : Type 0} (a : A) → Keeps F (pure {D = D} a)
  unfolding monad
  Keeps-pure a = record { keeps = λ w. F.same_refl w.state }

  pub Keeps-get : Keeps F (get {D = D})
  unfolding monad
  Keeps-get = record { keeps = λ w. F.same_refl w.state }

  pub Keeps-has_db : Keeps F (has_db {D = D})
  unfolding monad
  Keeps-has_db = record { keeps = λ w. F.same_refl w.state }

  pub Keeps-send :
      (fd type : ℕ) (text : Bytes) (user_id : ℕ)
      → Keeps F (send_message {D = D} fd type text user_id)
  unfolding monad
  Keeps-send fd type text user_id = record { keeps = λ w. F.same_refl w.state }

  pub Keeps-log_activity :
      (action : Bytes) (user_id : ℕ) (details : Bytes)
      → Keeps F (log_activity {D = D} action user_id details)
  unfolding monad
  Keeps-log_activity action user_id details = record { keeps = λ w. F.same_refl w.state }

  pub Keeps-call : {A : Type 0} (f : D → A × D) → Keeps F (call f)
  unfolding monad
  Keeps-call f = record { keeps = λ w. go w w.db }
    where
      go :
          (w : World D) (db : Option D)
          → After
              (elim db [ none ↦ fault | some d ↦ ok (f d).0 (record w { db = some (f d).1 }) ])
              (λ _ w'. F.Same w.state w'.state)
      go w none = tt
      go w (some d) = F.same_refl w.state

  pub Keeps-to_int : (s : Bytes) → Keeps F (to_int {D = D} s)
  unfolding monad
  Keeps-to_int s = record { keeps = λ w. go w (stoi s) }
    where
      go :
          (w : World D) (n : Option ℕ)
          → After (elim n [ none ↦ fault | some i ↦ ok i w ]) (λ _ w'. F.Same w.state w'.state)
      go w none = tt
      go w (some i) = F.same_refl w.state

  pub Keeps-modify :
      (f : ServerState → ServerState)
      → ((s : ServerState) → F.Same s (f s))
      → Keeps F (modify {D = D} f)
  unfolding monad
  Keeps-modify f h = record { keeps = λ w. h w.state }

  pub Keeps-exec :
      (f : World D → World D) → ((w : World D) → F.Same w.state (f w).state) → Keeps F (exec f)
  unfolding monad
  Keeps-exec f h = record { keeps = λ w. h w }

pub ruleset keeping = (
  Keeps-bind, Keeps-then, Keeps-if, Keeps-case, Keeps-pure, Keeps-get, Keeps-has_db, Keeps-send,
  Keeps-call, Keeps-to_int, Keeps-log_activity,
)
