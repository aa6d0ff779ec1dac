-- ===== src/Client/Block.antt =====
-- About the 512 bytes that `ProtocolParseThreadFunc` of ClientObj/clientobj.cpp takes from the queue.
use console_master_rtpvoice.Prelude.{
  ℕ, zero, suc, ◌+◌, ◌/◌, ◌%◌, ◌^◌, ◌≤◌, ◌<◌, ◌≡◌, refl, ap, sym, ◌∙◌, List, [], ◌∷◌, ◌++◌,
  append_assoc, some, pos, length, take, drop, replicate, blit, take-append, drop-append,
  length-append, length-take, length-drop, length-replicate, arith, lt→ltb,
}
use native.Mathlib.Decide.{dec_lt}
use console_master_rtpvoice.Common.{buf_length, sizeof_h_socket, to_u32}
use console_master_rtpvoice.Text.{decimal, decimal_signed, scan_int4}
use console_master_rtpvoice.Text.Digits.{
  decimal_1, decimal_2, decimal_3, decimal_4, decimal_5, dec4, scan_int4-dec1, scan_int4-dec2,
  scan_int4-dec3, scan_int4-dec4,
}
use console_master_rtpvoice.Sender.Fragment.{NoNul}
use console_master_rtpvoice.Client.{packet_buffer, queue_data, c_string, read_fd, read_json}
use console_master_rtpvoice.Client.Packet.{packet}

-- What stands in front of the payload in a packet: the first four bytes of the text of the socket,
-- its NUL and zeros.
unfoldable pub fd_field : ℕ → List ℕ
fd_field fd = take 4 (blit (replicate buf_length 0) 0 (decimal_signed fd ++ 0 ∷ []))

decimal_signed_small : (n : ℕ) → n < 100000 → decimal_signed n ≡ decimal n
unfolding decimal_signed
decimal_signed_small n h = rw (lt→ltb n (2 ^ 31) (omega arith)) refl

fd_field_1 : (n : ℕ) → n < 10 → fd_field n ≡ (48 + n) ∷ 0 ∷ 0 ∷ 0 ∷ []
unfolding fd_field
fd_field_1 n h = rw (decimal_signed_small n (omega arith), decimal_1 n h) refl

fd_field_2 : (n : ℕ) → 10 ≤ n → n < 100 → fd_field n ≡ (48 + n / 10) ∷ (48 + n % 10) ∷ 0 ∷ 0 ∷ []
unfolding fd_field
fd_field_2 n h k = rw (decimal_signed_small n (omega arith), decimal_2 n h k) refl

decimal_tail :
    (n : ℕ)
    → 100 ≤ n
    → n < 1000
    → decimal n ≡ (48 + n / 100 % 10) ∷ (48 + n / 10 % 10) ∷ (48 + n % 10) ∷ []
decimal_tail n h k = ap (drop 1) (decimal_3 n h k)

fd_field_3 :
    (n : ℕ)
    → 100 ≤ n
    → n < 1000
    → fd_field n ≡ (48 + n / 100 % 10) ∷ (48 + n / 10 % 10) ∷ (48 + n % 10) ∷ 0 ∷ []
unfolding fd_field
fd_field_3 n h k = rw (decimal_signed_small n (omega arith), decimal_tail n h k) refl

fd_field_4 : (n : ℕ) → 1000 ≤ n → n < 10000 → fd_field n ≡ dec4 n
unfolding fd_field
fd_field_4 n h k = rw (decimal_signed_small n (omega arith), decimal_4 n h k) refl

fd_field_5 :
    (n : ℕ)
    → 10000 ≤ n
    → n < 100000
    → fd_field n
      ≡ (48 + n / 10000) ∷ (48 + n / 1000 % 10) ∷ (48 + n / 100 % 10) ∷ (48 + n / 10 % 10) ∷ []
unfolding fd_field
fd_field_5 n h k = rw (decimal_signed_small n (omega arith), decimal_5 n h k) refl

length-blit_front : (buf text : List ℕ) → length buf ≤ length (blit buf 0 text)
length-blit_front buf text = omega (
  arith,
  length-append (take 0 buf ++ text) (drop (0 + length text) buf),
  length-append (take 0 buf) text,
  length-drop (0 + length text) buf,
)

pub length-fd_field : (fd : ℕ) → length (fd_field fd) ≡ 4
unfolding fd_field
length-fd_field fd = length-take 4 (blit (replicate buf_length 0) 0 (decimal_signed fd ++ 0 ∷ [])) (
    omega (
      arith,
      length-blit_front (replicate buf_length 0) (decimal_signed fd ++ 0 ∷ []),
      length-replicate {A = ℕ} buf_length 0,
    ))

-- The bytes of the socket stand in front of the payload.
pub packet-append : (fd : ℕ) (p : List ℕ) → packet fd p ≡ fd_field fd ++ p
unfolding packet_buffer fd_field
packet-append fd p =
    ap (λ n. take n ((fd_field fd ++ p) ++ drop (4 + length p) text)) sizes
    ∙ take-append (fd_field fd ++ p) _
  where
    text : List ℕ
    text = blit (replicate buf_length 0) 0 (decimal_signed fd ++ 0 ∷ [])

    sizes : length p + sizeof_h_socket ≡ length (fd_field fd ++ p)
    sizes = omega (arith, length-append (fd_field fd) p, length-fd_field fd)

read_fd_lem :
    (block : List ℕ) (n : ℕ)
    → scan_int4 (queue_data block) ≡ some (pos n)
    → n < 2 ^ 32
    → read_fd block ≡ n
unfolding read_fd to_u32
read_fd_lem block n e h = rw (read_fd, e) (omega arith)

queue_data-append : (xs s : List ℕ) → queue_data (xs ++ s) ≡ xs ++ queue_data s
queue_data-append xs s = append_assoc xs s (replicate 512 0)

scan-front : (fd : ℕ) (s : List ℕ) → fd < 10000 → scan_int4 (fd_field fd ++ s) ≡ some (pos fd)
scan-front fd s h = elim (dec_lt fd 10) [
  | yes one ↦ rw (fd_field_1 fd one) (scan_int4-dec1 fd 0 0 0 s one refl)
  | no ge10 ↦ elim (dec_lt fd 100) [
    | yes two ↦ rw (fd_field_2 fd (omega arith) two) (
        scan_int4-dec2 (fd / 10) (fd % 10) 0 0 s (omega arith) (omega arith) refl
        ∙ ap (λ k. some (pos k)) (omega arith))
    | no ge100 ↦ elim (dec_lt fd 1000) [
      | yes three ↦ rw (fd_field_3 fd (omega arith) three) (
          scan_int4-dec3 (fd / 100 % 10) (fd / 10 % 10) (fd % 10) 0 s (omega arith) (omega arith)
            (omega arith) refl
          ∙ ap (λ k. some (pos k)) (omega arith))
      | no ge1000 ↦ rw (fd_field_4 fd (omega arith) h) (
          scan_int4-dec4 (fd / 1000 % 10) (fd / 100 % 10) (fd / 10 % 10) (fd % 10) s (omega arith)
            (omega arith) (omega arith) (omega arith)
          ∙ ap (λ k. some (pos k)) (omega arith))
    ]
  ]
]

-- A block of 512 bytes that begins with a packet, and what stands behind the packet in it.
pub record Carries (block : List ℕ) (fd : ℕ) (p : List ℕ) : Type 0 where
  pub stale : List ℕ
  pub shape : block ≡ packet fd p ++ stale
  pub full : length block ≡ 512

Carries-split :
    (fd : ℕ) (p block : List ℕ) (k : Carries block fd p) → block ≡ fd_field fd ++ (p ++ k.stale)
Carries-split fd p block k =
    k.shape ∙ ap (λ l. l ++ k.stale) (packet-append fd p) ∙ append_assoc (fd_field fd) p k.stale

-- The number that `sscanf` finds is the socket that the parse thread works with.
read_fd-scan :
    (fd : ℕ) (p block : List ℕ) (n : ℕ) (k : Carries block fd p)
    → n < 2 ^ 32
    → scan_int4 (fd_field fd ++ queue_data (p ++ k.stale)) ≡ some (pos n)
    → read_fd block ≡ n
read_fd-scan fd p block n k small e =
    ap read_fd (Carries-split fd p block k)
    ∙ read_fd_lem (fd_field fd ++ (p ++ k.stale)) n
        (ap scan_int4 (queue_data-append (fd_field fd) (p ++ k.stale)) ∙ e) small

-- A socket below 10000 is read back from the packet, whatever the payload is and whatever stands
-- behind it.
pub read_fd-packet :
    (fd : ℕ) (p block : List ℕ) → fd < 10000 → Carries block fd p → read_fd block ≡ fd
read_fd-packet fd p block h k =
    read_fd-scan fd p block fd k (omega arith) (scan-front fd (queue_data (p ++ k.stale)) h)

-- Of a socket from 10000 to 99999 the last digit is lost: the payload is copied over it.
pub read_fd-packet_cut :
    (fd : ℕ) (p block : List ℕ)
    → 10000 ≤ fd
    → fd < 100000
    → Carries block fd p
    → read_fd block ≡ fd / 10
read_fd-packet_cut fd p block l h k = read_fd-scan fd p block (fd / 10) k (omega arith) (
    rw (fd_field_5 fd l h) (
      scan_int4-dec4 (fd / 10000) (fd / 1000 % 10) (fd / 100 % 10) (fd / 10 % 10) _ (omega arith)
        (omega arith) (omega arith) (omega arith)
      ∙ ap (λ k. some (pos k)) (omega arith)))

c_string-append : (p s : List ℕ) → NoNul p → c_string (p ++ s) ≡ p ++ c_string s
unfolding c_string
c_string-append [] s h = refl
c_string-append (x ∷ p) s h = ground (arith, c_string-append p s h.1)

c_string-zeros : (s : List ℕ) (n : ℕ) → c_string (s ++ replicate n 0) ≡ c_string s
unfolding c_string
c_string-zeros [] zero = refl
c_string-zeros [] (suc n) = refl
c_string-zeros (x ∷ s) n = ground (arith, c_string-zeros s n)

take_exact : (n : ℕ) (xs ys : List ℕ) → n ≡ length xs → take n (xs ++ ys) ≡ xs
take_exact n xs ys e = ap (λ k. take k (xs ++ ys)) e ∙ take-append xs ys

drop_exact : (n : ℕ) (xs ys : List ℕ) → n ≡ length xs → drop n (xs ++ ys) ≡ ys
drop_exact n xs ys e = ap (λ k. drop k (xs ++ ys)) e ∙ drop-append xs ys

json_text :
    (f x zs more : List ℕ)
    → length f ≡ 4
    → length x ≡ 508
    → zs ≡ replicate 4 0 ++ more
    → c_string (take 512 (drop sizeof_h_socket ((f ++ x) ++ zs))) ≡ c_string x
json_text f x zs more four size e =
    ap (λ l. c_string (take 512 (drop sizeof_h_socket l))) (append_assoc f x zs)
    ∙ ap (λ l. c_string (take 512 l)) (drop_exact sizeof_h_socket f (x ++ zs) (sym four))
    ∙ ap (λ l. c_string (take 512 l))
        (ap (λ z. x ++ z) e ∙ sym (append_assoc x (replicate 4 0) more))
    ∙ ap c_string
        (take_exact 512 (x ++ replicate 4 0) more (omega (arith, length-append x (replicate 4 0))))
    ∙ c_string-zeros x 4

-- The text that the reader is given is the payload, if it has no NUL in it, and then what an earlier
-- message left in the slot, up to a NUL.
pub read_json-packet :
    (fd : ℕ) (p block : List ℕ) (k : Carries block fd p)
    → NoNul p
    → read_json block ≡ p ++ c_string k.stale
unfolding read_json
read_json-packet fd p block k h =
    ap (λ b. c_string (take 512 (drop sizeof_h_socket (queue_data b)))) (Carries-split fd p block k)
    ∙ json_text (fd_field fd) (p ++ k.stale) (replicate 512 0) (replicate 508 0)
        (length-fd_field fd)
        (omega (
          arith,
          k.full,
          ap length (Carries-split fd p block k),
          length-append (fd_field fd) (p ++ k.stale),
          length-fd_field fd,
        ))
        refl
    ∙ c_string-append p k.stale h
