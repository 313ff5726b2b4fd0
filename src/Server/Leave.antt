-- ===== src/Server/Leave.antt =====
-- How src/server.c removes a client, and how it empties a send buffer.
use sasd_protocols.Prelude.{
  ℕ, zero, suc, ◌≤◌, ◌≡◌, ◌≢◌, ◌⊎◌, inl, inr, refl, ap, ◌∙◌, List, [], ◌∷◌, ◌++◌, length, take,
  drop, All, append_assoc, Option, none, some, ◌>>=◌, Bool-cases, ℤ, eqb_ℤ, eqb_ℤ→eq, arith,
}
use sasd_protocols.Buffer.Types.{done, failed}
use sasd_protocols.Bvec.{contents, bv_reset}
use sasd_protocols.Server.{
  Client, Context, remove_client, shut_down, server_client_shutdown, send_loop, client_flush,
}
use sasd_protocols.Bvec.Laws.{length-drop}
use sasd_protocols.Server.Relay.{different}

-- How a list is left when the first client with a number is taken out of it.
pub record TakenOut (id : ℤ) (cs cs' : List Client) : Type 0 where
  pub before : List Client
  pub removed : Client
  pub after : List Client
  pub was : cs ≡ before ++ (removed ∷ after)
  pub becomes : cs' ≡ before ++ after
  pub others : All (λ c. c.id ≢ id) before
  pub found : removed.id ≡ id

remove_client_lem :
    (id : ℤ) (cs : List Client)
    → ((remove_client id cs ≡ none) × All (λ c. c.id ≢ id) cs)
      ⊎ ((cs' : List Client) × (remove_client id cs ≡ some cs') × TakenOut id cs cs')
unfolding remove_client
remove_client_lem id [] = inl (refl, tt)
remove_client_lem id (c ∷ cs) = elim (Bool-cases (eqb_ℤ c.id id)) [
  | inl e ↦ rw e (
      inr (
        cs,
        refl,
        record {
          before = [];
          removed = c;
          after = cs;
          was = refl;
          becomes = refl;
          others = tt;
          found = eqb_ℤ→eq c.id id e;
        },
      ))
  | inr e ↦ rw e (behind (remove_client_lem id cs) (different c.id id e))
]
  where
    behind :
        ((remove_client id cs ≡ none) × All (λ c. c.id ≢ id) cs)
          ⊎ ((cs' : List Client) × (remove_client id cs ≡ some cs') × TakenOut id cs cs')
        → c.id ≢ id
        → (((remove_client id cs >>= λ cs'. some (c ∷ cs')) ≡ none) × All (λ c. c.id ≢ id) (c ∷ cs))
          ⊎ ((cs' : List Client) × ((remove_client id cs >>= λ cs'. some (c ∷ cs')) ≡ some cs')
              × TakenOut id (c ∷ cs) cs')
    behind (inl (q, h)) k = rw q (inl (refl, (k, h)))
    behind (inr (cs', q, t)) k = rw q (
        inr (
          c ∷ cs',
          refl,
          record {
            before = c ∷ t.before;
            removed = t.removed;
            after = t.after;
            was = ap (◌∷◌ c) t.was;
            becomes = ap (◌∷◌ c) t.becomes;
            others = (k, t.others);
            found = t.found;
          },
        ))

-- A shutdown fails and changes nothing if no client has the number. Otherwise it succeeds and
-- takes the first client that has it out of the list, and leaves the others and their order.
pub server_client_shutdown-TakenOut :
    (id : ℤ) (ctx : Context)
    → ((server_client_shutdown id ctx ≡ (failed, ctx)) × All (λ c. c.id ≢ id) ctx.clients)
      ⊎ ((cs : List Client) × (server_client_shutdown id ctx ≡ (done, record ctx { clients = cs }))
          × TakenOut id ctx.clients cs)
unfolding server_client_shutdown shut_down
server_client_shutdown-TakenOut id ctx = elim (remove_client_lem id ctx.clients) [
  | inl (q, h) ↦ inl (ap (shut_down ctx) q, h)
  | inr (cs, q, t) ↦ inr (cs, ap (shut_down ctx) q, t)
]

take-append_drop : {A : Type 0} (n : ℕ) (xs : List A) → take n xs ++ drop n xs ≡ xs
take-append_drop zero xs = refl
take-append_drop (suc n) [] = refl
take-append_drop (suc n) (x ∷ xs) = ap (◌∷◌ x) (take-append_drop n xs)

-- Calls of `send` that take at least one byte each.
abbrev pub IsProgress : Option ℕ → Type 0
IsProgress none = ⊥
IsProgress (some n) = 1 ≤ n

send_loop-prefix :
    (rs : List (Option ℕ)) (xs : List ℕ) → (left : List ℕ) × (send_loop rs xs ++ left ≡ xs)
unfolding send_loop
send_loop-prefix [] xs = (xs, refl)
send_loop-prefix (none ∷ rs) xs = (xs, refl)
send_loop-prefix (some n ∷ rs) [] = ([], refl)
send_loop-prefix (some n ∷ rs) (x ∷ xs) =
    let (left, e) = send_loop-prefix rs (drop n (x ∷ xs)) in
    (
      left,
      append_assoc (take n (x ∷ xs)) (send_loop rs (drop n (x ∷ xs))) left
          ∙ ap (λ ys. take n (x ∷ xs) ++ ys) e
          ∙ take-append_drop n (x ∷ xs),
    )

send_loop-whole :
    (rs : List (Option ℕ)) (xs : List ℕ)
    → All IsProgress rs
    → length xs ≤ length rs
    → send_loop rs xs ≡ xs
unfolding send_loop
send_loop-whole [] [] ps h = refl
send_loop-whole [] (x ∷ xs) ps h = absurd (omega arith)
send_loop-whole (none ∷ rs) xs (p, ps) h = absurd p
send_loop-whole (some n ∷ rs) [] ps h = refl
send_loop-whole (some zero ∷ rs) (x ∷ xs) (p, ps) h = absurd (omega arith)
send_loop-whole (some (suc n) ∷ rs) (x ∷ xs) (p, ps) h =
    ap (λ ys. take (suc n) (x ∷ xs) ++ ys)
      (send_loop-whole rs (drop n xs) ps (omega (arith, length-drop n xs)))
    ∙ take-append_drop (suc n) (x ∷ xs)

-- What is sent of a send buffer is a beginning of what it held, in order, also if a `send` fails.
-- In any case the buffer is empty afterwards, and no notification is left.
pub client_flush-prefix :
    (rs : List (Option ℕ)) (c : Client)
    → ((left : List ℕ) × ((client_flush rs c).0 ++ left ≡ contents c.sbuffer))
      × (contents (client_flush rs c).1.sbuffer ≡ [])
      × ((client_flush rs c).1.notified ≡ 0)
unfolding client_flush bv_reset contents
client_flush-prefix rs c = (send_loop-prefix rs (take c.sbuffer.wptr c.sbuffer.bytes), refl, refl)

-- If no `send` fails or takes nothing, as many calls as the buffer holds bytes send all of it.
pub client_flush-whole :
    (rs : List (Option ℕ)) (c : Client)
    → All IsProgress rs
    → length (contents c.sbuffer) ≤ length rs
    → (client_flush rs c).0 ≡ contents c.sbuffer
unfolding client_flush
client_flush-whole rs c ps h = send_loop-whole rs (contents c.sbuffer) ps h
