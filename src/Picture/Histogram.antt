-- ===== src/Picture/Histogram.antt =====
-- noaddata.cpp: getHistogram and areSimilar. A histogram of 256 ints is a function of the index.
use noad.Prelude.{
  ℕ, zero, suc, ◌+◌, ◌-◌, ◌*◌, ◌/◌, ◌<◌, ◌≤◌, ◌≡◌, sym, refl, ◌∙◌, ap, ap₂, arith, Bool, not, List,
  [], ◌∷◌, ◌==◌, length, if◌then◌else◌, Bool-cases, inl, inr, false,
}
use noad.Prelude.Int.{ℤ, pos, ◌+ℤ◌, ◌≤ℤ◌, ltb_ℤ, +ℤ_parts, +ℤ_assoc, eq_of_parts}
use noad.Picture.{loop, steps}

-- The brightness plane of a noadYUVBuf, with the distance of its lines.
pub record YuvBuf : Type 0 where
  pub bytes : ℕ → ℕ
  pub line_width : ℕ

abbrev pub Histogram : Type 0
Histogram = ℕ → ℤ

abbrev pub no_histogram : Histogram
no_histogram i = pos 0

-- `dest[value]++`.
unfoldable pub count_value : ℕ → Histogram → Histogram
unfolding ◌+ℤ◌
count_value v h i = if i == v then h i +ℤ pos 1 else h i

unfoldable pub histogram_row : YuvBuf → ℕ → List ℕ → Histogram → Histogram
unfolding count_value
histogram_row f linestart [] h = h
histogram_row f linestart (x ∷ xs) h =
    histogram_row f linestart xs (count_value (f.bytes (linestart + x)) h)

unfoldable pub histogram_rows : YuvBuf → List ℕ → List ℕ → Histogram → Histogram
unfolding histogram_row
histogram_rows f xs [] h = h
histogram_rows f xs (y ∷ ys) h = histogram_rows f xs ys (histogram_row f (y * f.line_width) xs h)

-- With the grab size.
unfoldable pub get_histogram : ℕ → ℕ → YuvBuf → Histogram
unfolding histogram_rows loop
get_histogram width height f = histogram_rows f (loop 0 width 2) (loop 0 height 2) no_histogram

-- The sum of the smaller of the two counts, over the first values.
unfoldable pub similar_part : ℕ → Histogram → Histogram → ℤ
unfolding ◌+ℤ◌
similar_part zero h k = pos 0
similar_part (suc n) h k = similar_part n h k +ℤ (if ltb_ℤ (h n) (k n) then h n else k n)

unfoldable pub are_similar : ℤ → Histogram → Histogram → Bool
unfolding similar_part
are_similar similar_cutoff h k = not (ltb_ℤ (similar_part 256 h k) similar_cutoff)

-- All counts below 256.
unfoldable pub total : ℕ → Histogram → ℤ
unfolding ◌+ℤ◌
total zero h = pos 0
total (suc n) h = total n h +ℤ h n

smaller_self : (a : ℤ) → (if ltb_ℤ a a then a else a) ≡ a
smaller_self a = ground arith

pub similar_part_self : (n : ℕ) (h : Histogram) → similar_part n h h ≡ total n h
unfolding similar_part total
similar_part_self zero h = refl
similar_part_self (suc n) h = ap₂ (λ a b. a +ℤ b) (similar_part_self n h) (smaller_self (h n))

count_value_same : (v : ℕ) (h : Histogram) → count_value v h v ≡ h v +ℤ pos 1
unfolding count_value
count_value_same v h = ground arith

count_value_other : (i v : ℕ) (h : Histogram) → i == v ≡ false → count_value v h i ≡ h i
unfolding count_value
count_value_other i v h e = rw e refl

total-above : (n v : ℕ) (h : Histogram) → n ≤ v → total n (count_value v h) ≡ total n h
unfolding total
total-above zero v h l = refl
total-above (suc n) v h l =
    ap₂ (λ a b. a +ℤ b) (total-above n v h (omega arith)) (count_value_other n v h (ground arith))

+ℤ_end : (a b c d : ℤ) → c ≡ a +ℤ d → c +ℤ b ≡ a +ℤ b +ℤ d
+ℤ_end a b c d e = rw e (
    eq_of_parts _ _
      (omega (arith, +ℤ_parts a d, +ℤ_parts (a +ℤ d) b, +ℤ_parts a b, +ℤ_parts (a +ℤ b) d)))

total-below : (n v : ℕ) (h : Histogram) → v < n → total n (count_value v h) ≡ total n h +ℤ pos 1
unfolding total
total-below zero v h l = absurd (omega arith)
total-below (suc n) v h l = elim (Bool-cases (n == v)) [
  | inl e ↦
      let same : n ≡ v = ground arith in
      ap₂ (λ a b. a +ℤ b) (total-above n v h (omega arith))
        (ap (count_value v h) same ∙ count_value_same v h ∙ ap (λ i. h i +ℤ pos 1) (sym same))
      ∙ sym (+ℤ_assoc (total n h) (h n) (pos 1))
  | inr e ↦
      rw (count_value_other n v h e)
        (+ℤ_end (total n h) (h n) _ (pos 1) (total-below n v h (ground arith)))
]

-- Each byte is a value of the histogram.
abbrev pub IsBytes : YuvBuf → Type 0
IsBytes f = (i : ℕ) → f.bytes i < 256

+ℤ_pos : (a : ℤ) (m n : ℕ) → a +ℤ pos m +ℤ pos n ≡ a +ℤ pos (m + n)
+ℤ_pos a m n =
    eq_of_parts _ _
      (omega (arith, +ℤ_parts a (pos m), +ℤ_parts (a +ℤ pos m) (pos n), +ℤ_parts a (pos (m + n))))

+ℤ_zero : (a : ℤ) → a ≡ a +ℤ pos 0
+ℤ_zero a = eq_of_parts _ _ (omega (arith, +ℤ_parts a (pos 0)))

total-histogram_row :
    (f : YuvBuf) (l : ℕ) (xs : List ℕ) (h : Histogram)
    → IsBytes f
    → total 256 (histogram_row f l xs h) ≡ total 256 h +ℤ pos (length xs)
unfolding histogram_row
total-histogram_row f l [] h b = +ℤ_zero (total 256 h)
total-histogram_row f l (x ∷ xs) h b =
    total-histogram_row f l xs (count_value (f.bytes (l + x)) h) b
    ∙ ap (λ t. t +ℤ pos (length xs)) (total-below 256 (f.bytes (l + x)) h (b (l + x)))
    ∙ +ℤ_pos (total 256 h) 1 (length xs)
    ∙ ap (λ n. total 256 h +ℤ pos n) (omega arith)

total-histogram_rows :
    (f : YuvBuf) (xs ys : List ℕ) (h : Histogram)
    → IsBytes f
    → total 256 (histogram_rows f xs ys h) ≡ total 256 h +ℤ pos (length ys * length xs)
unfolding histogram_rows
total-histogram_rows f xs [] h b =
    +ℤ_zero (total 256 h) ∙ ap (λ n. total 256 h +ℤ pos n) (omega arith)
total-histogram_rows f xs (y ∷ ys) h b =
    total-histogram_rows f xs ys (histogram_row f (y * f.line_width) xs h) b
    ∙ ap (λ t. t +ℤ pos (length ys * length xs)) (total-histogram_row f (y * f.line_width) xs h b)
    ∙ +ℤ_pos (total 256 h) (length xs) (length ys * length xs)
    ∙ ap (λ n. total 256 h +ℤ pos n) (grind arith)

length-steps :
    (fuel i limit : ℕ) → limit ≤ i + fuel → length (steps fuel i limit 2) ≡ (limit - i + 1) / 2
unfolding steps
length-steps zero i limit h = omega arith
length-steps (suc fuel) i limit h = ground (arith, length-steps fuel (i + 2) limit)

total-none : (n : ℕ) → total n no_histogram ≡ pos 0
unfolding total
total-none zero = refl
total-none (suc n) = rw (total-none n) (sym (+ℤ_zero (pos 0)))

length-loop : (n : ℕ) → length (loop 0 n 2) ≡ (n + 1) / 2
unfolding loop
length-loop n = omega (arith, length-steps n 0 n (omega arith))

zero-+ℤ_pos : (n : ℕ) → pos 0 +ℤ pos n ≡ pos n
zero-+ℤ_pos n = eq_of_parts _ _ (omega (arith, +ℤ_parts (pos 0) (pos n)))

-- Where the brightness values are bytes, the counts of a histogram add up to the number of pixels
-- that getHistogram looks at: every other column of every other line.
pub total-get_histogram :
    (width height : ℕ) (f : YuvBuf)
    → IsBytes f
    → total 256 (get_histogram width height f) ≡ pos ((height + 1) / 2 * ((width + 1) / 2))
unfolding get_histogram
total-get_histogram width height f b =
    total-histogram_rows f (loop 0 width 2) (loop 0 height 2) no_histogram b
    ∙ ap (λ t. t +ℤ pos (length (loop 0 height 2) * length (loop 0 width 2))) (total-none 256)
    ∙ zero-+ℤ_pos (length (loop 0 height 2) * length (loop 0 width 2))
    ∙ ap₂ (λ a b. pos (a * b)) (length-loop height) (length-loop width)

histogram_row-from :
    (f : YuvBuf) (l : ℕ) (xs : List ℕ) (h : Histogram)
    → ((i : ℕ) → pos 0 ≤ℤ h i)
    → (i : ℕ) → pos 0 ≤ℤ histogram_row f l xs h i
unfolding histogram_row count_value
histogram_row-from f l [] h k i = k i
histogram_row-from f l (x ∷ xs) h k i =
    histogram_row-from f l xs (count_value (f.bytes (l + x)) h)
      (λ j. ground (arith, k j, +ℤ_parts (h j) (pos 1))) i

histogram_rows-from :
    (f : YuvBuf) (xs ys : List ℕ) (h : Histogram)
    → ((i : ℕ) → pos 0 ≤ℤ h i)
    → (i : ℕ) → pos 0 ≤ℤ histogram_rows f xs ys h i
unfolding histogram_rows
histogram_rows-from f xs [] h k i = k i
histogram_rows-from f xs (y ∷ ys) h k i =
    histogram_rows-from f xs ys (histogram_row f (y * f.line_width) xs h)
      (histogram_row-from f (y * f.line_width) xs h k) i

pub get_histogram-from :
    (width height : ℕ) (f : YuvBuf) (i : ℕ) → pos 0 ≤ℤ get_histogram width height f i
unfolding get_histogram
get_histogram-from width height f i =
    histogram_rows-from f (loop 0 width 2) (loop 0 height 2) no_histogram (λ j. omega arith) i
