-- ===== src/Projeto2/Client/Exchange.antt =====
-- The loop of writes of the client, and the reading of the answer.
use mathlib.Core.List.{append-nil, append_assoc}
use projeto_sistemas_operati.Base.{
  none, arith, ◌∙◌, refl, zero, ap, some, ◌∷◌, IsInt, suc, drop, [], ◌≡◌, ◌++◌, Option, ℤ, take,
  List, ℕ,
}
use projeto_sistemas_operati.Projeto2.Client.{sent_all, Client, Pipes, send_loop, read_answer}
use projeto_sistemas_operati.Memory.{
  load_int-store_int, load_int-ext, load_int, store_int, sizeof_int, bytes_of, Mem,
}
use projeto_sistemas_operati.Projeto2.Server.{
  read_message, received, read_loop, store_bytes, bytes, Delivery,
}
use projeto_sistemas_operati.Projeto2.Server.Reading.{read_message-whole}
use projeto_sistemas_operati.Projeto2.Client.Messages.{store_bytes-bytes_of, length-bytes_of}

take-append-drop : (n : ℕ) (xs : List ℕ) → take n xs ++ drop n xs ≡ xs
take-append-drop zero xs = refl
take-append-drop (suc n) [] = refl
take-append-drop (suc n) (x ∷ xs) = ap (λ ys. x ∷ ys) (take-append-drop n xs)

send_loop-from :
    (rs : List (Option ℕ)) (bs sent out : List ℕ)
    → send_loop rs bs sent ≡ sent_all out
    → out ≡ sent ++ bs
unfolding send_loop
send_loop-from [] [] sent out e = cc (e, append-nil sent)
send_loop-from (r ∷ rs) [] sent out e = cc (e, append-nil sent)
send_loop-from [] (b ∷ bs) sent out e = cc e
send_loop-from (none ∷ rs) (b ∷ bs) sent out e = cc e
send_loop-from (some n ∷ rs) (b ∷ bs) sent out e =
    send_loop-from rs (drop n (b ∷ bs)) (sent ++ take n (b ∷ bs)) out e
    ∙ append_assoc sent (take n (b ∷ bs)) (drop n (b ∷ bs))
    ∙ ap (λ ys. sent ++ ys) (take-append-drop n (b ∷ bs))

-- However the pipe splits the writing, the loop that ends has sent the whole request, in order.
pub send_loop-whole :
    (rs : List (Option ℕ)) (bs out : List ℕ) → send_loop rs bs [] ≡ sent_all out → out ≡ bs
send_loop-whole rs bs out e = send_loop-from rs bs [] out e

-- The four bytes of an `int`, as the server writes them.
abbrev pub int_bytes : Mem → ℤ → List ℕ
int_bytes m z = bytes_of sizeof_int (store_int m 0 z)

-- An `int` that one delivery brings is read as it was sent.
pub int-received :
    (old m : Mem) (z : ℤ) (rest : List Delivery)
    → IsInt z
    → (got : Mem) × (read_loop sizeof_int sizeof_int 0 old (bytes (int_bytes m z) ∷ rest)
        ≡ received got rest)
      × (load_int got 0 ≡ z)
unfolding read_message
int-received old m z rest int = (
  store_bytes old 0 (int_bytes m z),
  read_message-whole sizeof_int old (int_bytes m z) rest (omega arith)
      (length-bytes_of sizeof_int (store_int m 0 z)),
  load_int-ext (store_bytes old 0 (int_bytes m z)) (store_int m 0 z) 0
        (λ j lo hi. store_bytes-bytes_of old (store_int m 0 z) sizeof_int j (omega (arith, hi)))
      ∙ load_int-store_int m 0 z int,
)

pub read_answer-int :
    (p : Pipes) (c : Client) (m : Mem) (z : ℤ) (rest : List Delivery)
    → IsInt z
    → p.replies ≡ bytes (int_bytes m z) ∷ rest
    → read_answer p c ≡ some (z, c)
unfolding read_answer
read_answer-int p c m z rest int e =
    let (got, reads, number) = int-received p.server_answer m z rest int in
    rw (ap (read_loop sizeof_int sizeof_int 0 p.server_answer) e ∙ reads, read_answer)
      (ap (λ n. some (n, c)) number)
