-- ===== src/Fifo/Slots.antt =====
-- About copies into `fifobuff` of FifoQueue/fifoqueue.h and the slots.
use console_master_rtpvoice.Prelude.{
  ℕ, ◌+◌, ◌-◌, ◌*◌, ◌≤◌, ◌≡◌, ◌≢◌, ap, sym, ◌∙◌, List, ◌++◌, arith, length, take, drop, blit,
  length-append, length-take, length-drop, take-take, take-append, take-append_le, drop-append,
  drop-append_ge, drop-drop, take-drop, append_assoc,
}
use native.Mathlib.Decide.{dec_lt}
use console_master_rtpvoice.Fifo.{slot, slot_size}

pub length-blit :
    (buf : List ℕ) (off : ℕ) (p : List ℕ)
    → off + length p ≤ length buf
    → length (blit buf off p) ≡ length buf
length-blit buf off p h = omega (
  arith,
  length-append (take off buf ++ p) (drop (off + length p) buf),
  length-append (take off buf) p,
  length-take off buf (omega arith),
  length-drop (off + length p) buf,
)

-- Before the copy.
take-blit :
    (buf : List ℕ) (off : ℕ) (p : List ℕ) (b : ℕ)
    → b ≤ off
    → off ≤ length buf
    → take b (blit buf off p) ≡ take b buf
take-blit buf off p b h k =
    ap (take b) (append_assoc (take off buf) p (drop (off + length p) buf))
    ∙ take-append_le b (take off buf) _ (omega (arith, length-take off buf k))
    ∙ take-take b off buf h

-- Behind the copy.
drop-blit :
    (buf : List ℕ) (off : ℕ) (p : List ℕ) (a : ℕ)
    → off ≤ length buf
    → off + length p ≤ a
    → drop a (blit buf off p) ≡ drop a buf
drop-blit buf off p a h k =
    drop-append_ge a (take off buf ++ p) (drop (off + length p) buf) (omega (arith, sizes))
    ∙ drop-drop (a - length (take off buf ++ p)) (off + length p) buf
    ∙ ap (λ n. drop n buf) (omega (arith, sizes))
  where
    sizes : length (take off buf ++ p) ≡ off + length p
    sizes = omega (arith, length-append (take off buf) p, length-take off buf h)

-- At the copy.
drop-blit_self :
    (buf : List ℕ) (off : ℕ) (p : List ℕ)
    → off ≤ length buf
    → drop off (blit buf off p) ≡ p ++ drop (off + length p) buf
drop-blit_self buf off p h =
    ap (drop off) (append_assoc (take off buf) p (drop (off + length p) buf))
    ∙ ap (λ n. drop n (take off buf ++ (p ++ drop (off + length p) buf)))
        (sym (length-take off buf h))
    ∙ drop-append (take off buf) (p ++ drop (off + length p) buf)

pub slot-blit_self :
    (buf : List ℕ) (i : ℕ) (p : List ℕ)
    → i * slot_size ≤ length buf
    → length p ≤ slot_size
    → take (length p) (slot (blit buf (i * slot_size) p) i) ≡ p
slot-blit_self buf i p h k =
    take-take (length p) slot_size _ k
    ∙ ap (take (length p)) (drop-blit_self buf (i * slot_size) p h)
    ∙ take-append p _

pub slot-blit_ne :
    (buf : List ℕ) (i j : ℕ) (p : List ℕ)
    → j * slot_size ≤ length buf
    → length p ≤ slot_size
    → i ≢ j
    → slot (blit buf (j * slot_size) p) i ≡ slot buf i
slot-blit_ne buf i j p h k ne = elim (dec_lt i j) [
  | yes below ↦
      take-drop slot_size (i * slot_size) _
      ∙ ap (drop (i * slot_size))
          (take-blit buf (j * slot_size) p (i * slot_size + slot_size) (omega arith) h)
      ∙ sym (take-drop slot_size (i * slot_size) buf)
  | no above ↦ ap (take slot_size) (drop-blit buf (j * slot_size) p (i * slot_size) h (omega arith))
]
