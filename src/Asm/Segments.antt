-- ===== src/Asm/Segments.antt =====
-- What `next_segment` of src/mhasm.c finds in a line.
use mathlib.Core.Path.{subst}
use mihini.Prelude.{
  ℕ, zero, suc, ◌+◌, ◌^◌, ◌<◌, ◌≤◌, ◌==◌, ◌≡◌, ◌≢◌, ◌⊎◌, order-cases, inl, inr, refl, arith, Bool,
  true, false, Bool-cases, not, ◌&&◌, List, [], ◌∷◌, some, length, u8, sub16,
}
use mihini.Prelude.Ascii.{char_at}
use mihini.Asm.{Segment}
use mihini.Asm.Scan.{whitespace, text, skip_while, next_segment}

-- The characters from `a` on, up to `b`, pass a test.
abbrev pub AllPass : (ℕ → Bool) → List ℕ → ℕ → ℕ → Type 0
AllPass test buffer a b = (i : ℕ) → a ≤ i → i < b → test (char_at buffer i) ≡ true

-- What stops a loop over a line: its end, or a character that fails the test
abbrev pub Stops : (ℕ → Bool) → List ℕ → ℕ → Type 0
Stops test buffer e = (char_at buffer e ≡ 0) ⊎ (test (char_at buffer e) ≡ false)

pub record IsRun (test : ℕ → Bool) (buffer : List ℕ) (pos e : ℕ) : Type 0 where
  pub from : pos ≤ e
  pub inside : e ≤ length buffer
  pub passed : AllPass test buffer pos e
  pub stops : Stops test buffer e

char_at-end : (buffer : List ℕ) → char_at buffer (length buffer) ≡ 0
char_at-end [] = refl
char_at-end (c ∷ cs) = char_at-end cs

end_reached : (buffer : List ℕ) (pos : ℕ) → pos ≡ length buffer → char_at buffer pos ≡ 0
end_reached buffer pos e = rw e (char_at-end buffer)

stop_cases :
    (test : ℕ → Bool) (c : ℕ) → (not (c == 0) && test c) ≡ false → (c ≡ 0) ⊎ (test c ≡ false)
stop_cases test c h = ground arith

pass_cases : (test : ℕ → Bool) (c : ℕ) → (not (c == 0) && test c) ≡ true → (c ≢ 0) × (test c ≡ true)
pass_cases test c h = ground arith

before_end :
    (buffer : List ℕ) (pos : ℕ) → pos ≤ length buffer → char_at buffer pos ≢ 0 → pos < length buffer
before_end buffer pos h k = elim (order-cases pos (length buffer)) [
  | inl lt ↦ lt
  | inr (inl eq) ↦ absurd (k (end_reached buffer pos eq))
  | inr (inr gt) ↦ absurd (omega arith)
]

-- A run with one character more in front
one_more :
    (test : ℕ → Bool) (buffer : List ℕ) (pos e : ℕ)
    → test (char_at buffer pos) ≡ true
    → IsRun test buffer (pos + 1) e
    → IsRun test buffer pos e
one_more test buffer pos e h r = record {
  from = (let k = r.from in omega arith);
  inside = r.inside;
  passed = λ i a b. elim (order-cases pos i) [
    | inl lt ↦ r.passed i (omega arith) b
    | inr (inl eq) ↦ rw (← eq) h
    | inr (inr gt) ↦ absurd (omega arith)
  ];
  stops = r.stops;
}

skip_while-IsRun :
    (test : ℕ → Bool) (buffer : List ℕ) (rounds pos : ℕ)
    → length buffer < 2 ^ 8
    → pos ≤ length buffer
    → length buffer < rounds + pos
    → (e : ℕ) × (skip_while test buffer rounds pos ≡ some e) × IsRun test buffer pos e
unfolding skip_while
skip_while-IsRun test buffer zero pos short h k = absurd (omega arith)
skip_while-IsRun test buffer (suc rounds) pos short h k =
    elim (Bool-cases (not (char_at buffer pos == 0) && test (char_at buffer pos))) [
      | inr stop ↦ (
        pos,
        rw stop refl,
        record {
          from = omega arith;
          inside = h;
          passed = λ i a b. absurd (omega arith);
          stops = stop_cases test (char_at buffer pos) stop;
        },
      )
      | inl go ↦
          let ok = pass_cases test (char_at buffer pos) go in
          let before : pos < length buffer = before_end buffer pos h ok.0 in
          let next : u8 (pos + 1) ≡ pos + 1 = omega arith in
          let (e, f, r) =
            skip_while-IsRun test buffer rounds (u8 (pos + 1)) short (omega arith) (omega arith) in
          (e, rw go f, one_more test buffer pos e ok.1 (subst (λ p. IsRun test buffer p e) next r))
    ]

-- In a line of less than 256 characters, from a position in it, the segment that is found lies in the
-- line: spaces lead to it, it has no space in it, and its end is that of the line or is a space. Its
-- length is that between its ends.
pub next_segment-IsRun :
    (buffer : List ℕ) (pos : ℕ)
    → length buffer < 2 ^ 8
    → pos ≤ length buffer
    → (segment : Segment) × (next : ℕ) × (next_segment buffer pos ≡ some (segment, next))
      × IsRun whitespace buffer pos segment.start
      × IsRun text buffer segment.start segment.end
      × (segment.start + segment.length ≡ segment.end)
unfolding next_segment
next_segment-IsRun buffer pos short h =
    let (start, e, r) = skip_while-IsRun whitespace buffer 256 pos short h (omega arith) in
    let (end, f, q) =
      skip_while-IsRun text buffer 256 start short (let k = r.inside in omega arith)
        (omega arith) in
    (
      record { start = start; length = sub16 end start; end = end },
      u8 (end + 1),
      rw (e, f) refl,
      r,
      q,
      (let k = q.from in let m = q.inside in omega arith),
    )
