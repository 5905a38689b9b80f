-- ===== src/Keys/Order.antt =====
-- The order of the bytes that the functions of Keys give.
use mathlib.Core.Path.{subst}
use mathlib.Core.List.{
  map, reverse, reverse-cons, reverse-append, reverse-reverse, append-nil, append_assoc,
}
use tee_io_validator.Common.{
  ℕ, suc, ◌+◌, ◌-◌, ◌*◌, ◌/◌, ◌≢◌, ◌≡◌, refl, sym, ap, ◌∙◌, arith, true, false, List, [], ◌∷◌, ◌++◌,
  some, returns, ◌>>=◌, ltb, length, get_elem?, modify, length-append,
}
use tee_io_validator.Keys.{
  Dword, byte, set_byte, swap_bytes, revert_bytes_inside_dw, copy_dw, sizes_bad, pcie_keys_loop,
  pcie_construct_rp_keys, revert_at, cxl_keys_loop, cxl_construct_rp_keys,
}

-- The dword with its bytes in the other order.
abbrev pub reverted : Dword → Dword
reverted w = record { byte_0 = w.byte_3; byte_1 = w.byte_2; byte_2 = w.byte_1; byte_3 = w.byte_0 }

-- The bytes of a buffer in the order of memory.
abbrev pub bytes : List Dword → List ℕ
bytes [] = []
bytes (w ∷ ws) = w.byte_0 ∷ w.byte_1 ∷ w.byte_2 ∷ w.byte_3 ∷ bytes ws

get_elem?-at : {A : Type 0} (xs ys : List A) (y : A) → get_elem? (xs ++ y ∷ ys) (length xs) ≡ some y
get_elem?-at [] ys y = refl
get_elem?-at (x ∷ xs) ys y = get_elem?-at xs ys y

modify-at :
    {A : Type 0} (xs ys : List A) (y : A) (f : A → A)
    → modify (xs ++ y ∷ ys) (length xs) f ≡ xs ++ f y ∷ ys
modify-at [] ys y f = refl
modify-at (x ∷ xs) ys y f = ap (◌∷◌ x) (modify-at xs ys y f)

length-reverse : {A : Type 0} (xs : List A) → length (reverse xs) ≡ length xs
length-reverse [] = refl
length-reverse (x ∷ xs) =
    rw (reverse-cons x xs) (length-append (reverse xs) (x ∷ []) ∙ omega (arith, length-reverse xs))

copy_dw-at :
    (a b c d : List Dword) (x y : Dword)
    → copy_dw (a ++ x ∷ b) (length a) (c ++ y ∷ d) (length c) ≡ returns (c ++ x ∷ d)
unfolding copy_dw
copy_dw-at a b c d x y =
    let inside : ltb (length c) (length (c ++ y ∷ d)) ≡ true =
      rw (length-append c (y ∷ d)) (ground arith) in
    rw (copy_dw, get_elem?-at a b x, inside) (ap returns (modify-at c d y (λ _. x)))

revert_bytes_inside_dw-reverted : (w : Dword) → revert_bytes_inside_dw w ≡ returns (reverted w)
unfolding revert_bytes_inside_dw swap_bytes byte set_byte
revert_bytes_inside_dw-reverted w = refl

revert_at-at :
    (c d : List Dword) (x : Dword)
    → revert_at (c ++ x ∷ d) (length c) ≡ returns (c ++ reverted x ∷ d)
unfolding revert_at
revert_at-at c d x =
    rw (revert_at, get_elem?-at c d x, revert_bytes_inside_dw-reverted x, ◌>>=◌)
      (ap returns (modify-at c d x (λ _. reverted x)))

snoc-append : {A : Type 0} (c : List A) (x : A) (d : List A) → (c ++ x ∷ []) ++ d ≡ c ++ x ∷ d
snoc-append c x d = append_assoc c (x ∷ []) d

length-snoc : {A : Type 0} (c : List A) (x : A) → length (c ++ x ∷ []) ≡ length c + 1
length-snoc c x = length-append c (x ∷ [])

-- The loop writes what is left of the source, last dword first.
pcie_keys_loop-lem :
    (todo done c rest : List Dword)
    → length rest ≡ length todo
    → length c ≡ length done
    → pcie_keys_loop
        (length todo)
        (length c)
        (length todo + length done)
        (reverse todo ++ done)
        (c ++ rest)
      ≡ returns (c ++ todo)
unfolding pcie_keys_loop
pcie_keys_loop-lem [] done c [] h k = refl
pcie_keys_loop-lem [] done c (y ∷ rest) h k = absurd (omega arith)
pcie_keys_loop-lem (x ∷ todo) done c [] h k = absurd (omega arith)
pcie_keys_loop-lem (x ∷ todo) done c (y ∷ rest) h k =
    let place : suc (length todo) + length done - length c - 1 ≡ length (reverse todo) =
      rw (length-reverse todo) (omega arith) in
    let source : reverse (x ∷ todo) ++ done ≡ reverse todo ++ x ∷ done =
      rw (reverse-cons x todo) (snoc-append (reverse todo) x done) in
    let count : suc (length todo) + length done ≡ length todo + length (x ∷ done) = omega arith in
    let ih =
      pcie_keys_loop-lem todo (x ∷ done) (c ++ x ∷ []) rest (omega arith)
        (length-snoc c x ∙ omega arith) in
    rw (source, place, copy_dw-at (reverse todo) done c rest x y, ◌>>=◌, count)
      (rw (← length-snoc c x, ← snoc-append c x rest, ← snoc-append c x todo) ih)

cxl_keys_loop-lem :
    (done todo c rest : List Dword)
    → length rest ≡ length todo
    → length c ≡ length done
    → cxl_keys_loop (length todo) (length c) (done ++ todo) (c ++ rest)
      ≡ returns (c ++ map reverted todo)
unfolding cxl_keys_loop
cxl_keys_loop-lem done [] c [] h k = refl
cxl_keys_loop-lem done [] c (y ∷ rest) h k = absurd (omega arith)
cxl_keys_loop-lem done (x ∷ todo) c [] h k = absurd (omega arith)
cxl_keys_loop-lem done (x ∷ todo) c (y ∷ rest) h k =
    let copied : copy_dw (done ++ x ∷ todo) (length c) (c ++ y ∷ rest) (length c)
        ≡ returns (c ++ x ∷ rest) =
      ap (λ n. copy_dw (done ++ x ∷ todo) n (c ++ y ∷ rest) (length c)) k
      ∙ copy_dw-at done todo c rest x y in
    let ih =
      cxl_keys_loop-lem (done ++ x ∷ []) todo (c ++ reverted x ∷ []) rest (omega arith)
        (length-snoc c (reverted x) ∙ omega (arith, length-snoc done x)) in
    rw (copied, ◌>>=◌, revert_at-at c rest x, ◌>>=◌)
      (rw
        (
          ← length-snoc c (reverted x),
          ← snoc-append c (reverted x) rest,
          ← snoc-append c (reverted x) (map reverted todo),
          ← snoc-append done x todo,
        )
        ih)

sizes_ok : (n : ℕ) → n ≢ 0 → sizes_bad (n * 4) (n * 4) ≡ false
sizes_ok n h = ground arith

quarter : (n : ℕ) → n * 4 / 4 ≡ n
quarter n = omega arith

pcie_loop_todo :
    (todo keys rp_keys : List Dword) (n : ℕ)
    → reverse todo ++ [] ≡ keys
    → length todo ≡ n
    → length rp_keys ≡ n
    → pcie_keys_loop n 0 n keys rp_keys ≡ returns todo
pcie_loop_todo todo keys rp_keys n e l k =
    let ih = pcie_keys_loop-lem todo [] [] rp_keys (k ∙ sym l) refl in
    let z : length todo + 0 ≡ length todo = omega arith in
    rw (← e, ← l)
      (subst (λ m. pcie_keys_loop (length todo) 0 m (reverse todo ++ []) rp_keys ≡ returns todo) z
        ih)

pcie_loop :
    (keys rp_keys : List Dword)
    → length rp_keys ≡ length keys
    → pcie_keys_loop (length keys) 0 (length keys) keys rp_keys ≡ returns (reverse keys)
pcie_loop keys rp_keys k =
    pcie_loop_todo (reverse keys) keys rp_keys (length keys)
      (append-nil (reverse (reverse keys)) ∙ reverse-reverse keys) (length-reverse keys) k

bytes-append : (xs ys : List Dword) → bytes (xs ++ ys) ≡ bytes xs ++ bytes ys
bytes-append [] ys = refl
bytes-append (x ∷ xs) ys =
    ap (λ t. x.byte_0 ∷ x.byte_1 ∷ x.byte_2 ∷ x.byte_3 ∷ t) (bytes-append xs ys)

bytes-reverse : (ws : List Dword) → bytes (reverse (map reverted ws)) ≡ reverse (bytes ws)
bytes-reverse [] = refl
bytes-reverse (w ∷ ws) =
    let front = w.byte_0 ∷ w.byte_1 ∷ w.byte_2 ∷ w.byte_3 ∷ [] in
    rw (reverse-cons (reverted w) (map reverted ws), bytes-append, bytes-reverse ws)
      (sym (reverse-append front (bytes ws)))

-- With buffers of one size that is not zero, `pcie_construct_rp_keys` stays inside both, returns
-- true and leaves the dwords of the message in the reverse order, whatever the registers held.
pub pcie_construct_rp_keys-reverse :
    (keys rp_keys : List Dword)
    → length keys ≢ 0
    → length rp_keys ≡ length keys
    → pcie_construct_rp_keys (some keys) (length keys * 4) (some rp_keys) (length keys * 4)
      ≡ returns (true, reverse keys)
unfolding pcie_construct_rp_keys
pcie_construct_rp_keys-reverse keys rp_keys h k =
    rw (sizes_ok (length keys) h, quarter (length keys), pcie_loop keys rp_keys k, ◌>>=◌) refl

-- With such buffers `cxl_construct_rp_keys` does the same, and reverses the bytes in each dword
-- and not the dwords; together the two reverse all bytes of a key.
pub cxl_construct_rp_keys-reverse :
    (keys rp_keys : List Dword)
    → length keys ≢ 0
    → length rp_keys ≡ length keys
    → (out : List Dword) × (cxl_construct_rp_keys
          (some keys)
          (length keys * 4)
          (some rp_keys)
          (length keys * 4)
        ≡ returns (true, out))
      × (out ≡ map reverted keys)
      × (bytes (reverse out) ≡ reverse (bytes keys))
unfolding cxl_construct_rp_keys
cxl_construct_rp_keys-reverse keys rp_keys h k = (
  map reverted keys,
  rw
      (
        sizes_ok (length keys) h,
        quarter (length keys),
        cxl_keys_loop-lem [] keys [] rp_keys k refl,
        ◌>>=◌,
      )
      refl,
  refl,
  bytes-reverse keys,
)
