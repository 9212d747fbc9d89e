-- ===== src/Pico/Replay.antt =====
-- The loops of `handle_messages` on a stream of whole messages (loco_pico/src/bin/loco_pico.rs,
-- actuators_pico/src/bin/actuators_pico.rs).
use locoloco.Common.{
  sym, append_assoc, ℕ, zero, suc, ◌≤◌, ◌<◌, ◌≡◌, refl, ap, ◌∙◌, Option, some, List, [], ◌∷◌, ◌++◌,
  length, length-append, Result, ok, err, arith,
}
use locoloco.Wire.{Traffic}
use locoloco.Pico.Socket.{Socket, IsSocket}
use locoloco.Pico.Receive.{Reasons, receive, receive_header}
use locoloco.Pico.Loop.{loop}

-- The bytes of messages, one behind the other.
abbrev pub all_bytes : {M : Type 0} → (M → List ℕ) → List M → List ℕ
all_bytes bytes [] = []
all_bytes bytes (m ∷ ms) = bytes m ++ all_bytes bytes ms

pub all_bytes-append :
    {M : Type 0} (bytes : M → List ℕ) (xs ys : List M)
    → all_bytes bytes (xs ++ ys) ≡ all_bytes bytes xs ++ all_bytes bytes ys
all_bytes-append bytes [] ys = refl
all_bytes-append bytes (x ∷ xs) ys =
    ap (λ l. bytes x ++ l) (all_bytes-append bytes xs ys) ∙ sym (append_assoc (bytes x) _ _)

-- What each of the messages does to a socket and a board, one after the other.
pub data Chain {M S A : Type 0} (Does : M → S × A → S × A → Type 0)
    : List M → S × A → S × A → Type 0 where
  at_end : {x : S × A} → Chain Does [] x x
  next :
      {m : M} {ms : List M} {x y z : S × A}
      → Does m x y
      → Chain Does ms y z
      → Chain Does (m ∷ ms) x z

-- at the end of the connection
pub receive-nil :
    {E S : Type 0} (reasons : Reasons E) (k : Socket S) (t : Traffic S)
    → IsSocket k t
    → (s : S) → t.incoming s ≡ []
    → (receive reasons k s).0 ≡ err reasons.tcp_read
unfolding receive receive_header
receive-nil reasons k t network s e =
    let closed = network.ends s 3 (omega (arith, ap length e)) in
    rw (closed, receive, receive_header) refl

module _ {E S A M : Type 0} (round : S → A → Result E (Unit {0}) × S × A) (t : Traffic S)
    (bytes : M → List ℕ) (Does : M → S × A → S × A → Type 0) (IsFine : A → Type 0) where
  -- A message was handled, and `rest` is left.
  pub record IsHandled (m : M) (rest : List ℕ) (s : S) (a : A) (out : Result E (Unit {0}) × S × A)
      : Type 0 where
    pub done : out.0 ≡ ok tt
    pub left : t.incoming out.1 ≡ rest
    pub kept : IsFine out.2
    pub does : Does m (s, a) (out.1, out.2)

  -- The loop handled the messages and came to the end of the connection.
  pub record IsReplayed (ms : List M) (s : S) (a : A)
      (result : Option (Result E (Unit {0}) × S × A)) : Type 0 where
    pub error : E
    pub before : S
    pub socket : S
    pub state : A
    pub ended : result ≡ some (err error, socket, state)
    pub chain : Chain Does ms (s, a) (before, state)
    pub fine : IsFine state

  loop_step :
      (fuel : ℕ) (s : S) (a : A)
      → (round s a).0 ≡ ok tt
      → loop round (suc fuel) s a ≡ loop round fuel (round s a).1 (round s a).2
  unfolding loop
  loop_step fuel s a e = rw (e, loop) refl

  loop_end :
      (fuel : ℕ) (s s' : S) (a : A) (error : E)
      → round s a ≡ (err error, s', a)
      → loop round (suc fuel) s a ≡ some (err error, s', a)
  unfolding loop
  loop_end fuel s s' a error e =
      ap
        (λ (o : Result E (Unit {0}) × S × A). elim o.0 [
          | ok _ ↦ loop round fuel o.1 o.2
          | other ↦ some (other, o.1, o.2)
        ])
        e

  -- If a round handles each message that arrives, and fails where the connection ends, then with more
  -- fuel than bytes the loop handles all messages in order.
  pub loop-IsReplayed :
      ((m : M) (rest : List ℕ) (s : S) (a : A)
        → IsFine a
        → t.incoming s ≡ bytes m ++ rest
        → IsHandled m rest s a (round s a))
      → ((s : S) (a : A)
          → t.incoming s ≡ []
          → (error : E) × (s' : S) × (round s a ≡ (err error, s', a)))
      → ((m : M) → 1 ≤ length (bytes m))
      → (ms : List M) (fuel : ℕ) (s : S) (a : A) → IsFine a
      → t.incoming s ≡ all_bytes bytes ms
      → length (all_bytes bytes ms) < fuel
      → IsReplayed ms s a (loop round fuel s a)
  loop-IsReplayed each last long ms zero s a fine e h = absurd (omega arith)
  loop-IsReplayed each last long [] (suc fuel) s a fine e h =
      let (error, s', failed) = last s a e in
      record {
        error = error;
        before = s;
        socket = s';
        state = a;
        ended = loop_end fuel s s' a error failed;
        chain = at_end;
        fine = fine;
      }
  loop-IsReplayed each last long (m ∷ ms) (suc fuel) s a fine e h =
      let one = each m (all_bytes bytes ms) s a fine e in
      let (_, s', a') = round s a in
      let size = length-append (bytes m) (all_bytes bytes ms) in
      let more =
        loop-IsReplayed each last long ms fuel s' a' one.kept one.left
          (omega (arith, h, size, long m)) in
      record {
        error = more.error;
        before = more.before;
        socket = more.socket;
        state = more.state;
        ended = loop_step fuel s a one.done ∙ more.ended;
        chain = next one.does more.chain;
        fine = more.fine;
      }
