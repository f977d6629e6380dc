-- ===== src/Projeto2/Client/Reading.antt =====
-- What `tfs_read` of the client makes of the server's answer.
use projeto_sistemas_operati.Projeto2.Client.{
  sent_all, transfer_message, write_buffer_of, send_loop, Client, Pipes, read_file, content_loop,
  tfs_read,
}
use projeto_sistemas_operati.Projeto2.Server.{
  read_error, sizeof_read_message, tfs_op_code_read, bytes, Delivery, store_bytes,
}
use projeto_sistemas_operati.Base.{
  sym, ap, ◌∙◌, ◌^◌, [], ◌++◌, subst, arith, length, ◌∷◌, some, ◌≡◌, ◌+◌, ◌<◌, pos, ℤ, List, Array,
  ℕ,
}
use projeto_sistemas_operati.Memory.{store_int, Mem}
use projeto_sistemas_operati.Projeto2.Server.Reading.{
  store_bytes-append, length-append, deliveries, concat, NoneEmpty,
}
use projeto_sistemas_operati.Projeto2.Client.Exchange.{send_loop-whole, int-received, int_bytes}

content_loop-end :
    (count : ℕ) (buffer : Array ℕ) (rest : List Delivery)
    → content_loop (pos count) count buffer rest ≡ some (pos count, buffer)
unfolding content_loop
content_loop-end count buffer [] = ground arith
content_loop-end count buffer (read_error ∷ rs) = ground arith
content_loop-end count buffer (bytes bs ∷ rs) = ground arith

content_loop-more :
    (count at : ℕ) (buffer : Array ℕ) (bs : List ℕ) (rs : List Delivery)
    → at < count
    → content_loop (pos count) at buffer (bytes bs ∷ rs)
      ≡ content_loop (pos count) (at + length bs) (store_bytes buffer at bs) rs
unfolding content_loop
content_loop-more count at buffer bs rs lt = ground (arith, lt)

content_loop-from :
    (count at : ℕ) (buffer : Array ℕ) (cs : List (List ℕ)) (rest : List Delivery)
    → NoneEmpty cs
    → at + length (concat cs) ≡ count
    → content_loop (pos count) at buffer (deliveries cs rest)
      ≡ some (pos count, store_bytes buffer at (concat cs))
unfolding store_bytes
content_loop-from count at buffer [] rest ne e =
    subst (λ n. content_loop (pos count) n buffer rest ≡ some (pos count, buffer))
      (omega (arith, e)) (content_loop-end count buffer rest)
content_loop-from count at buffer (c ∷ cs) rest (p, ne) e =
    let both : length (c ++ concat cs) ≡ length c + length (concat cs) =
      length-append c (concat cs) in
    content_loop-more count at buffer c (deliveries cs rest) (omega (arith, e, both, p))
    ∙ content_loop-from count (at + length c) (store_bytes buffer at c) cs rest ne
        (omega (arith, e, both))
    ∙ ap (λ m. some (pos count, m)) (sym (store_bytes-append buffer at c (concat cs)))

-- The client's tfs_read, where its request goes out, sends the code and the message whole; where
-- the server's answer is one delivery with the number of the bytes, below 2^31, and then these
-- bytes in deliveries that are not empty, however they are split, it returns the number, and the
-- bytes stand at the front of the buffer.
pub tfs_read-answered :
    (p : Pipes) (fresh m : Mem) (fhandle : ℤ) (buffer : Array ℕ) (len : ℕ) (c : Client)
    (out : List ℕ) (cs : List (List ℕ)) (rest : List Delivery)
    → send_loop p.writes
        (write_buffer_of tfs_op_code_read sizeof_read_message
          (transfer_message fresh c fhandle len))
        []
      ≡ sent_all out
    → NoneEmpty cs
    → length (concat cs) < 2 ^ 31
    → p.replies ≡ bytes (int_bytes m (pos (length (concat cs)))) ∷ deliveries cs rest
    → tfs_read p fresh fhandle buffer len c ≡ (
      write_buffer_of tfs_op_code_read sizeof_read_message (transfer_message fresh c fhandle len),
      some (pos (length (concat cs)), store_bytes buffer 0 (concat cs)),
    )
unfolding tfs_read read_file
tfs_read-answered p fresh m fhandle buffer len c out cs rest sends ne int answered =
    let count : ℕ = length (concat cs) in
    let sent : List ℕ =
      write_buffer_of tfs_op_code_read sizeof_read_message (transfer_message fresh c fhandle len) in
    let (got, reads, number) =
      int-received (store_int p.server_answer 0 (pos 0)) m (pos count) (deliveries cs rest)
        (omega (arith, int)) in
    rw (sends, answered, reads, number, tfs_read, read_file)
      (ap (λ bs. (bs, content_loop (pos count) 0 buffer (deliveries cs rest)))
          (send_loop-whole p.writes _ out sends)
        ∙ ap (λ r. (sent, r)) (content_loop-from count 0 buffer cs rest ne (omega arith)))
