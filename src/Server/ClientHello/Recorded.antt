-- ===== src/Server/ClientHello/Recorded.antt =====
-- What a connection has recorded, however the bytes came in.
use anti_scrapling.Go.{
  ℕ, zero, suc, ◌+◌, ◌-◌, ◌/◌, ◌%◌, ◌≤◌, leb, ◌≡◌, refl, ap, ◌∙◌, sym, true, if◌then◌else◌, inl,
  inr, Bool-cases, List, [], ◌∷◌, ◌++◌, length, take, length-append, length-take,
  take-length-append, Bytes, ok, arith,
}
use anti_scrapling.Tls.Reader.{be16}
use anti_scrapling.Tls.Parser.{parse_client_hello}
use anti_scrapling.Tls.Parser.RoundTrip.{
  WireHello, put_body, put_handshake, put_record, add_extensions, wire_fields,
  parse_client_hello-put_record,
}
use anti_scrapling.Server.ClientHello.{
  max_client_hello_bytes, record_bytes, read, read_all, raw_client_hello,
}
use mathlib.Core.List.{append_assoc, append-nil}

abbrev pub concat : List Bytes → Bytes
concat [] = []
concat (chunk ∷ chunks) = chunk ++ concat chunks

module _ {A : Type 0} where
  take_less :
      (n : ℕ) (xs ys : List A) → length xs ≤ n → take n (xs ++ ys) ≡ xs ++ take (n - length xs) ys
  take_less n [] ys h = ap (λ k. take k ys) (omega arith)
  take_less zero (x ∷ xs) ys h = absurd (omega arith)
  take_less (suc n) (x ∷ xs) ys h =
      ap (◌∷◌ x) (take_less n xs ys (omega arith) ∙ ap (λ k. xs ++ take k ys) (omega arith))

  take_more : (n : ℕ) (xs ys : List A) → n ≤ length xs → take n (xs ++ ys) ≡ take n xs
  take_more zero xs ys h = refl
  take_more (suc n) [] ys h = absurd (omega arith)
  take_more (suc n) (x ∷ xs) ys h = ap (◌∷◌ x) (take_more n xs ys (omega arith))

  take_whole : (n : ℕ) (xs : List A) → length xs ≤ n → take n xs ≡ xs
  take_whole zero [] h = refl
  take_whole zero (x ∷ xs) h = absurd (omega arith)
  take_whole (suc n) [] h = refl
  take_whole (suc n) (x ∷ xs) h = ap (◌∷◌ x) (take_whole n xs (omega arith))

  -- Cutting twice is cutting once.
  take_twice : (n : ℕ) (xs ys : List A) → take n (take n xs ++ ys) ≡ take n (xs ++ ys)
  take_twice zero xs ys = refl
  take_twice (suc n) [] ys = refl
  take_twice (suc n) (x ∷ xs) ys = ap (◌∷◌ x) (take_twice n xs ys)

  cut : ℕ → List A → List A → List A
  cut n xs ys = if leb n (length xs) then xs else xs ++ take (n - length xs) ys

  cut_lem : (n : ℕ) (xs ys : List A) → length xs ≤ n → cut n xs ys ≡ take n (xs ++ ys)
  unfolding cut
  cut_lem n xs ys h = elim (Bool-cases (leb n (length xs))) [
    | inl full ↦ rw full (sym (take_more n xs ys (ground arith) ∙ take_whole n xs h))
    | inr room ↦ rw room (sym (take_less n xs ys h))
  ]

read_lem :
    (raw chunk : Bytes)
    → length raw ≤ max_client_hello_bytes
    → (read raw chunk).1 ≡ take max_client_hello_bytes (raw ++ chunk)
unfolding read record_bytes cut
read_lem raw [] h =
    sym (take_whole max_client_hello_bytes raw h)
    ∙ ap (take max_client_hello_bytes) (sym (append-nil raw))
read_lem raw (b ∷ chunk) h = cut_lem max_client_hello_bytes raw (b ∷ chunk) h

cut_length : (n : ℕ) (xs : Bytes) → length (take n xs) ≤ n
cut_length n xs = omega (arith, length-take n xs)

read_all_from :
    (raw : Bytes) (chunks : List Bytes)
    → length raw ≤ max_client_hello_bytes
    → read_all raw chunks ≡ take max_client_hello_bytes (raw ++ concat chunks)
unfolding read_all
read_all_from raw [] h = read_lem raw [] h
read_all_from raw (chunk ∷ chunks) h =
    let e = read_lem raw chunk h in
    rw e (
      read_all_from (take max_client_hello_bytes (raw ++ chunk)) chunks
        (cut_length max_client_hello_bytes (raw ++ chunk))
      ∙ take_twice max_client_hello_bytes (raw ++ chunk) (concat chunks)
      ∙ ap (take max_client_hello_bytes) (append_assoc raw chunk (concat chunks)))

-- A connection has recorded the first 8 KiB of what its reads returned, into whatever chunks the
-- network cut them.
pub read_all-eq-take :
    (chunks : List Bytes) → read_all [] chunks ≡ take max_client_hello_bytes (concat chunks)
read_all-eq-take chunks = read_all_from [] chunks (omega arith)

whole :
    (n : ℕ) (handshake rest : Bytes)
    → n ≡ 5 + length handshake
    → (if leb n (length (put_record handshake ++ rest))
        then take n (put_record handshake ++ rest)
        else put_record handshake ++ rest)
      ≡ put_record handshake
whole n handshake rest e =
    let long : leb n (length (put_record handshake ++ rest)) ≡ true =
      ground (arith, length-append handshake rest) in
    rw long (
      ap (λ k. take k (put_record handshake ++ rest)) (e ∙ five)
      ∙ take-length-append (put_record handshake) rest)
  where
    five : 5 + length handshake ≡ length (put_record handshake)
    five = omega arith

first_record :
    (handshake rest : Bytes)
    → raw_client_hello (put_record handshake ++ rest) ≡ put_record handshake
unfolding raw_client_hello
first_record handshake rest =
    let n = length handshake in whole (5 + be16 (n / 256) (n % 256)) handshake rest (omega arith)

record_recorded :
    (chunks : List Bytes) (handshake rest : Bytes)
    → concat chunks ≡ put_record handshake ++ rest
    → length (put_record handshake) ≤ max_client_hello_bytes
    → raw_client_hello (read_all [] chunks) ≡ put_record handshake
record_recorded chunks handshake rest e h =
    let n = max_client_hello_bytes in
    ap raw_client_hello
      (read_all-eq-take chunks ∙ ap (take n) e ∙ take_less n (put_record handshake) rest h)
    ∙ first_record handshake (take (n - length (put_record handshake)) rest)

-- A ClientHello in one record of at most 8 KiB is captured as that record, in whatever chunks it
-- comes and whatever follows it, and is parsed into the fields and extensions that the client gave.
-- Its random has 32 bytes.
pub hello_captured :
    (w : WireHello) (chunks : List Bytes) (rest : Bytes)
    → length w.random ≡ 32
    → concat chunks ≡ put_record (put_handshake (put_body w)) ++ rest
    → length (put_record (put_handshake (put_body w))) ≤ max_client_hello_bytes
    → (raw_client_hello (read_all [] chunks) ≡ put_record (put_handshake (put_body w)))
      × (parse_client_hello (raw_client_hello (read_all [] chunks))
          ≡ ok (add_extensions w.extensions (wire_fields w)))
hello_captured w chunks rest random e small =
    let handshake = put_handshake (put_body w) in
    let captured = record_recorded chunks handshake rest e small in
    (
      captured,
      ap parse_client_hello (captured ∙ sym (append-nil (put_record handshake)))
          ∙ parse_client_hello-put_record w [] random,
    )
