-- ===== src/Packets/Print/Values.antt =====
-- What `print_packet` of src/packets.c prints of a packet, without the texts around it.
use sasd_protocols.Prelude.{
  ℤ, pos, ◌≡◌, refl, sym, ap, ◌∙◌, List, [], ◌∷◌, ◌++◌, append_assoc, append-nil,
}
use sasd_protocols.Balls.Types.{Ball, State}
use sasd_protocols.Packets.Types.{
  Payload, test_packet_1, test_packet_2, handshake, plain_text, disconnected, connected, ball,
  state, event, unknown,
}
use sasd_protocols.Packets.Layout.{IsSent}
use sasd_protocols.Packets.Print.{
  Piece, text, int, char, string, field, opening, separated, print_ball, print_state, print_event,
  print_payload, print_packet,
}

-- The arguments of `printf` behind its format.
abbrev pub values : List Piece → List Piece
values [] = []
values (text s ∷ ps) = values ps
values (int z ∷ ps) = int z ∷ values ps
values (char z ∷ ps) = char z ∷ values ps
values (string xs ∷ ps) = string xs ∷ values ps

-- What is printed for each element, one after another.
abbrev pub each_of : {A : Type 0} → (A → List Piece) → List A → List Piece
each_of f [] = []
each_of f (x ∷ xs) = f x ++ each_of f xs

abbrev pub ball_values : ℤ → ℤ → Ball → List Piece
ball_values size sender_id b =
    int size
    ∷ int sender_id
    ∷ int b.p_x
    ∷ int b.p_y
    ∷ int b.v_x
    ∷ int b.v_y
    ∷ int b.player
    ∷ each_of (λ c. char c ∷ []) b.button_states

-- The fields of a payload, in order. Of a state these are the frame, the scores, and the balls with
-- a size of 0 and the sender each.
abbrev pub field_values : ℤ → Payload → List Piece
field_values sender_id (test_packet_1 data1 data2) = int data1 ∷ char data2 ∷ []
field_values sender_id (test_packet_2 data1 data2) = int data1 ∷ int data2 ∷ []
field_values sender_id (handshake client_id) = int client_id ∷ []
field_values sender_id (plain_text xs) = string xs ∷ []
field_values sender_id disconnected = []
field_values sender_id connected = []
field_values sender_id (ball b) =
    int b.p_x
    ∷ int b.p_y
    ∷ int b.v_x
    ∷ int b.v_y
    ∷ int b.player
    ∷ each_of (λ c. char c ∷ []) b.button_states
field_values sender_id (state s) =
    int s.frame
    ∷ (each_of (λ z. int z ∷ []) s.scores ++ each_of (ball_values (pos 0) sender_id) s.balls)
field_values sender_id (event e) =
    int e.frame ∷ int e.summon_frame ∷ int e.player ∷ int e.button ∷ int e.pressed ∷ []
field_values sender_id (unknown tag) = []

values-append : (ps qs : List Piece) → values (ps ++ qs) ≡ values ps ++ values qs
values-append [] qs = refl
values-append (text s ∷ ps) qs = values-append ps qs
values-append (int z ∷ ps) qs = ap (λ l. int z ∷ l) (values-append ps qs)
values-append (char z ∷ ps) qs = ap (λ l. char z ∷ l) (values-append ps qs)
values-append (string xs ∷ ps) qs = ap (λ l. string xs ∷ l) (values-append ps qs)

-- The separators are texts.
values-separated :
    {A : Type 0} (f g : A → List Piece)
    → ((x : A) → values (f x) ≡ g x)
    → (xs : List A) → values (separated f xs) ≡ each_of g xs
unfolding separated
values-separated f g k [] = refl
values-separated f g k (x ∷ []) = k x ∙ sym (append-nil (g x))
values-separated f g k (x ∷ y ∷ ys) =
    values-append (f x) (text ", " ∷ separated f (y ∷ ys))
    ∙ ap (λ l. l ++ values (separated f (y ∷ ys))) (k x)
    ∙ ap (λ l. g x ++ l) (values-separated f g k (y ∷ ys))

-- An array and the text behind it.
values-array :
    {A : Type 0} (f g : A → List Piece)
    → ((x : A) → values (f x) ≡ g x)
    → (xs : List A) (qs : List Piece) → values (separated f xs ++ qs) ≡ each_of g xs ++ values qs
values-array f g k xs qs =
    values-append (separated f xs) qs ∙ ap (λ l. l ++ values qs) (values-separated f g k xs)

values-print_ball :
    (size sender_id : ℤ) (b : Ball)
    → values (print_ball size sender_id b) ≡ ball_values size sender_id b
unfolding print_ball opening field
values-print_ball size sender_id b =
    ap
      (λ l.
        int size ∷ int sender_id ∷ int b.p_x ∷ int b.p_y ∷ int b.v_x ∷ int b.v_y ∷ int b.player ∷ l)
      (values-array (λ c. char c ∷ []) (λ c. char c ∷ []) (λ c. refl) b.button_states
          (text "]\n}\n" ∷ [])
        ∙ append-nil (each_of (λ c. char c ∷ []) b.button_states))

values-print_state :
    (size sender_id : ℤ) (s : State)
    → values (print_state size sender_id s)
      ≡ int size ∷ int sender_id ∷ field_values sender_id (state s)
unfolding print_state opening field
values-print_state size sender_id s =
    let balls = separated (print_ball (pos 0) sender_id) s.balls in
    let scores : List Piece = separated (λ z. int z ∷ []) s.scores in
    ap (λ l. int size ∷ int sender_id ∷ int s.frame ∷ l)
      (ap values
          (append_assoc scores (text "]\n" ∷ text "\tballs = [" ∷ balls) (text "]\n}\n" ∷ []))
        ∙ values-array (λ z. int z ∷ []) (λ z. int z ∷ []) (λ z. refl) s.scores
            ((text "]\n" ∷ text "\tballs = [" ∷ balls) ++ (text "]\n}\n" ∷ []))
        ∙ ap (λ l. each_of (λ z. int z ∷ []) s.scores ++ l)
            (values-array (print_ball (pos 0) sender_id) (ball_values (pos 0) sender_id)
                (values-print_ball (pos 0) sender_id) s.balls (text "]\n}\n" ∷ [])
              ∙ append-nil (each_of (ball_values (pos 0) sender_id) s.balls)))

-- Of a packet that can have been sent, its size, its sender and the fields of its payload are
-- printed.
pub values-print_packet :
    (size sender_id : ℤ) (p : Payload)
    → IsSent p
    → values (print_packet (record { size = size; sender_id = sender_id; payload = p }))
      ≡ int size ∷ int sender_id ∷ field_values sender_id p
unfolding print_packet print_payload print_event opening field
values-print_packet size sender_id (test_packet_1 a b) v = refl
values-print_packet size sender_id (test_packet_2 a b) v = refl
values-print_packet size sender_id (handshake a) v = refl
values-print_packet size sender_id (plain_text xs) v = refl
values-print_packet size sender_id disconnected v = refl
values-print_packet size sender_id connected v = refl
values-print_packet size sender_id (ball b) v = values-print_ball size sender_id b
values-print_packet size sender_id (state s) v = values-print_state size sender_id s
values-print_packet size sender_id (event e) v = refl
values-print_packet size sender_id (unknown tag) v = absurd v
