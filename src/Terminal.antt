-- ===== src/Terminal.antt =====
-- src/client.c: a client on a terminal, which sends what is typed and prints what has come.
pub mod Laws
pub mod Relayed
mod Runs
use sasd_protocols.Prelude.{
  ℕ, zero, suc, ◌+◌, ◌==◌, leb, List, [], ◌∷◌, ◌++◌, map, length, Option, none, some, ◌>>=◌, Bool,
  true, false, ◌&&◌, if◌then◌else◌, ℤ, pos, ◌+ℤ◌,
}
use sasd_protocols.Prelude.Word.{wrap, mod8}
use sasd_protocols.Buffer.Types.{Handle, Allocator}
use sasd_protocols.Balls.Types.{Ball, State, Event, n_balls}
use sasd_protocols.Balls.Collide.{i32}
use sasd_protocols.Packets.Types.{Payload, Packet, ball, state, event, plain_text}
use sasd_protocols.Packets.Deserialize.{Memory}
use sasd_protocols.Packets.Print.{Piece, text, send_packet, print_packet}
use sasd_protocols.Framing.{Run, ended, running, fault}
use sasd_protocols.Recvpool.{Queue, Retrieved, nothing, packet, crashed, recvpool_retrieve}

-- `sizeof(plain_text.text)`
abbrev pub text_size : ℕ
text_size = 256

-- What the fields of the variable `s` hold that are not assigned.
pub record Unassigned : Type 0 where
  pub paused : ℤ
  pub death_count : ℤ
  pub lie : ℤ

-- What the client does that can be seen: it writes to the terminal, or gives bytes to `send`.
pub data Shown : Type 0 where
  says : List Piece → Shown
  sends : List ℕ → Shown

-- `strcmp` gives 0.
pub same_word : List ℕ → List ℕ → Bool
same_word [] [] = true
same_word [] (y ∷ ys) = false
same_word (x ∷ xs) [] = false
same_word (x ∷ xs) (y ∷ ys) = let rest = same_word xs ys in (x == y) && rest

-- The words that are commands.
abbrev pub quit_word : List ℕ
quit_word = b'q' ∷ b'!' ∷ []

abbrev pub retrieve_word : List ℕ
retrieve_word = b'r' ∷ b'!' ∷ []

abbrev pub ball_word : List ℕ
ball_word = b'b' ∷ b'!' ∷ []

abbrev pub state_word : List ℕ
state_word = b's' ∷ b'!' ∷ []

abbrev pub event_word : List ℕ
event_word = b'e' ∷ b'!' ∷ []

pub a_ball : ℤ → Ball
a_ball player_id = record {
  p_x = pos 0;
  p_y = pos 1;
  v_x = pos 2;
  v_y = pos 3;
  player = player_id;
  button_states = pos b'a' ∷ pos b'b' ∷ pos b'c' ∷ pos b'd' ∷ [];
}

-- Each field plus one.
pub next_ball : Ball → Ball
next_ball b = record {
  p_x = i32 (b.p_x +ℤ pos 1);
  p_y = i32 (b.p_y +ℤ pos 1);
  v_x = i32 (b.v_x +ℤ pos 1);
  v_y = i32 (b.v_y +ℤ pos 1);
  player = i32 (b.player +ℤ pos 1);
  button_states = map (λ c. wrap mod8 (c +ℤ pos 1)) b.button_states;
}

pub balls_from : ℕ → Ball → List Ball
balls_from zero b = []
balls_from (suc n) b = b ∷ balls_from n (next_ball b)

pub a_state : Unassigned → ℤ → State
a_state u player_id = record {
  paused = u.paused;
  frame = pos 42;
  death_count = u.death_count;
  scores = pos 0 ∷ pos 1 ∷ pos 2 ∷ pos 3 ∷ pos 4 ∷ pos 5 ∷ pos 6 ∷ pos 7 ∷ [];
  balls = balls_from n_balls (a_ball player_id);
  lie = u.lie;
}

pub an_event : ℤ → Event
an_event player_id = record {
  frame = pos 31;
  summon_frame = pos 29;
  player = player_id;
  button = pos b'g';
  pressed = pos 1;
}

-- What is sent for a word that neither ends the client nor asks for packets.
pub payload_for : Unassigned → ℤ → List ℕ → Payload
payload_for u player_id word =
    if same_word word ball_word
    then ball (a_ball player_id)
    else (if same_word word state_word
        then state (a_state u player_id)
        else (if same_word word event_word then event (an_event player_id) else plain_text word))

-- `printf("> ")`
abbrev pub prompt : Shown
prompt = says (text "> " ∷ [])

-- What came of a word: what was shown, and that the client ends or goes on with a queue; or the loop
-- that prints needs more rounds, or something is undefined.
pub data Outcome : Type 0 where
  quit : List Shown → Outcome
  went_on : List Shown → Queue → Outcome
  busy : Outcome
  undefined : Outcome

-- What was shown in front of it.
pub shown_first : Shown → Outcome → Outcome
shown_first o (quit os) = quit (o ∷ os)
shown_first o (went_on os q) = went_on (o ∷ os) q
shown_first o busy = busy
shown_first o undefined = undefined

pub printed : Run (List Shown × Queue) → Outcome
printed (ended (os, q)) = went_on os q
printed (running r) = busy
printed fault = undefined

pub sent : Option (List ℕ) → Queue → Outcome
sent none q = undefined
sent (some xs) q = went_on (sends xs ∷ []) q

pub also : Shown → Run (List Shown × Queue) → Run (List Shown × Queue)
also o (ended (os, q)) = ended (o ∷ os, q)
also o (running (os, q)) = running (o ∷ os, q)
also o fault = fault

-- What the loop over the packets does with a result, given what its further rounds do.
pub print_next : Retrieved → (Queue → Run (List Shown × Queue)) → Run (List Shown × Queue)
print_next (nothing q) rest = ended ([], q)
print_next (packet p q) rest = also (says (print_packet p)) (rest q)
print_next crashed rest = fault

-- What the loop over the words does after one, given what it does with the others.
pub next_word : Outcome → (Queue → Option (List Shown)) → Option (List Shown)
next_word (quit os) rest = some os
next_word (went_on os q) rest = rest q >>= λ more. some (os ++ more)
next_word busy rest = none
next_word undefined rest = none

module _ (heap : Allocator) (memory : Memory) (u : Unassigned) (player_id : ℤ) where
  -- `while (recvpool_retrieve(&pool, &packet, 1) != -1)`, for so many rounds
  pub print_all : ℕ → Queue → Run (List Shown × Queue)
  print_all zero q = running ([], q)
  print_all (suc fuel) q = print_next (recvpool_retrieve memory true q) (print_all fuel)

  -- What is done with a word that `scanf` puts into `text` with its terminator.
  pub react : ℕ → List ℕ → Queue → Outcome
  react fuel word q =
      if leb (length word + 1) text_size
      then (if same_word word quit_word
          then quit []
          else (if same_word word retrieve_word
              then printed (print_all fuel q)
              else sent (send_packet heap (payload_for u player_id word)) q))
      else undefined

  -- A round of the loop.
  pub command : ℕ → List ℕ → Queue → Outcome
  command fuel word q = shown_first prompt (react fuel word q)

  -- The words that are typed, with the nodes that came into the queue before each of them. With the
  -- words used up, the client waits for one.
  pub terminal : ℕ → List (Queue × List ℕ) → Queue → Option (List Shown)
  terminal fuel [] q = some (prompt ∷ [])
  terminal fuel ((arrived, word) ∷ rest) q =
      next_word (command fuel word (q ++ arrived)) (terminal fuel rest)
