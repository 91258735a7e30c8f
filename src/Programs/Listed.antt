-- ===== src/Programs/Listed.antt =====
-- `ls` shows the names of a directory.
use my_sbuos.Base.{
  ℕ, zero, suc, ◌+◌, ◌*◌, ◌^◌, ◌≤◌, ◌<◌, ◌≡◌, refl, sym, ap, ◌∙◌, ◌≢◌, true, false, Option, some,
  List, [], ◌∷◌, ◌++◌, arith, ◌==◌, ◌>>=◌, ne→==, length, subst, Holds, Holds-agree, length-append,
}
use my_sbuos.Text.Strings.{IsString}
use my_sbuos.Console.{Console, write_k}
use my_sbuos.Syscall.Memory.{write_all}
use my_sbuos.Exec.{load}
use my_sbuos.Tar.Dents.{dirent_size, name_max}
use my_sbuos.Format.{Output}
use my_sbuos.Format.Line.{line_format, printf_user-line}
use my_sbuos.Directory.{Dir, readdir}
use my_sbuos.Directory.Listing.{Lists, readdir_entry, readdir_end}
use my_sbuos.Library.{Host, print}
use my_sbuos.Programs.{Texts, ls_loop}

-- The names shown, each followed by a newline.
pub show_names : List (List ℕ) → Console → Console
show_names [] c = c
show_names (xs ∷ names) c = show_names names (write_k 10 (write_all xs c))

load-agree :
    (n p : ℕ) (m m' : ℕ → ℕ) → ((j : ℕ) → p ≤ j → j < p + n → m' j ≡ m j) → load n m' p ≡ load n m p
unfolding load
load-agree zero p m m' same = refl
load-agree (suc n) p m m' same =
    rw
      (
        same p (omega arith) (omega arith),
        load-agree n (suc p) m m' (λ j a b. same j (omega arith) (omega arith)),
      )
      refl

-- A listing is a matter of its bytes.
pub Lists-agree :
    (names : List (List ℕ)) (p : ℕ) (m m' : ℕ → ℕ)
    → ((j : ℕ) → p ≤ j → j < p + dirent_size * length names + 8 → m' j ≡ m j)
    → Lists m p names
    → Lists m' p names
Lists-agree [] p m m' same h = load-agree 8 p m m' (λ j a b. same j a (omega (arith, b))) ∙ h
Lists-agree (xs ∷ names) p m m' same h = (
  λ z. h.0 (sym (load-agree 8 p m m' (λ j a b. same j a (omega (arith, b)))) ∙ z),
  load-agree 2 (p + 16) m m' (λ j a b. same j (omega (arith, a)) (omega (arith, b))) ∙ h.1,
  record {
    bytes = h.2.bytes;
    held =
        Holds-agree m m' (p + 18) (xs ++ 0 ∷ [])
          (λ j a b. same j (omega (arith, a)) (omega (arith, b, h.3, length-append xs (0 ∷ []))))
          h.2.held;
  },
  h.3,
  Lists-agree names (p + dirent_size) m m' (λ j a b. same j (omega (arith, a)) (omega (arith, b)))
      h.4,
)

module _ {ℓ} {S : Type ℓ} (host : Host S) (texts : Texts) where
  -- The buffer of `printf` is apart from the bytes from `low` to `high` and from the format, and its state
  -- is what was last set.
  pub record Apart (low high : ℕ) : Type ℓ where
    pub output_set : (o : Output) (s : S) → host.output (host.set_output o s) ≡ o
    pub listing_kept :
        (o : Output) (s : S) (j : ℕ)
        → low ≤ j
        → j < high
        → host.memory (host.set_output o s) j ≡ host.memory s j
    pub format_kept :
        (o : Output) (s : S) (j : ℕ)
        → texts.name_line ≤ j
        → j < texts.name_line + 4
        → host.memory (host.set_output o s) j ≡ host.memory s j

  print-line :
      (p : ℕ) (xs : List ℕ) (s : S) (low high : ℕ)
      → Apart low high
      → Holds (host.memory s) texts.name_line line_format
      → IsString (host.memory s) p xs
      → length xs + 3 ≤ host.print_fuel
      → (o : Output) × (print host texts.name_line (p ∷ []) s ≡ some (host.set_output o s))
        × ((host.output (host.set_output o s)).console
            ≡ write_k 10 (write_all xs (host.output s).console))
  unfolding print
  print-line p xs s low high apart format name fuel =
      let r =
        printf_user-line host.print_fuel (host.memory s) texts.name_line p xs
          (record (host.output s) { str_array = 0; printed = 0 }) format name fuel in
      (r.0, rw r.1 refl, ap (λ (o : Output). o.console) (apart.output_set r.0 s) ∙ r.2)

  -- One round, when `readdir` has given `r`.
  abbrev ls_round : (f : ℕ) (s : S) → ℕ × Dir → Option (Dir × S)
  ls_round f s r = elim (r.0 == 0) [
    | true ↦ some (r.1, s)
    | false ↦ print host texts.name_line ((r.0 + 18) ∷ []) s >>= ls_loop host texts f r.1
  ]

  ls_loop-round :
      (f : ℕ) (d : Dir) (s : S) (r : ℕ × Dir)
      → readdir (host.memory s) d ≡ r
      → ls_loop host texts (suc f) d s ≡ ls_round f s r
  unfolding ls_loop
  ls_loop-round f d s r e = ap (ls_round f s) e

  ls_loop-entry :
      (f p : ℕ) (d d1 : Dir) (s s' : S)
      → readdir (host.memory s) d ≡ (p, d1)
      → p ≢ 0
      → print host texts.name_line ((p + 18) ∷ []) s ≡ some s'
      → ls_loop host texts (suc f) d s ≡ ls_loop host texts f d1 s'
  ls_loop-entry f p d d1 s s' read nz e =
      let more : (p == 0) ≡ false = ne→== p 0 nz in
      ls_loop-round f d s (p, d1) read ∙ rw (ls_round, more, e) refl

  ls_loop-stop :
      (f : ℕ) (d : Dir) (s : S)
      → readdir (host.memory s) d ≡ (0, d)
      → ls_loop host texts (suc f) d s ≡ some (d, s)
  ls_loop-stop f d s read = ls_loop-round f d s (0, d) read

  -- The loop ends, and the console shows the names.
  pub record Shows (f : ℕ) (d : Dir) (names : List (List ℕ)) (s : S) : Type ℓ where
    pub last : Dir
    pub after : S
    pub result : ls_loop host texts f d s ≡ some (last, after)
    pub shown : (host.output after).console ≡ show_names names (host.output s).console

  -- On a listing that lies below 2 ^ 64 the loop of `ls` ends, with fuel for one round more than entries
  -- and for the longest name, and the console has shown the name of each entry once, in order, each
  -- followed by a newline. The listing and the format "%s\n" are apart from the buffer of `printf`.
  pub ls_loop-Shows :
      (f : ℕ) (d : Dir) (names : List (List ℕ)) (s : S)
      → Apart (d.dents + d.offset) (d.dents + d.offset + dirent_size * length names + 8)
      → Holds (host.memory s) texts.name_line line_format
      → Lists (host.memory s) (d.dents + d.offset) names
      → 0 < d.dents
      → d.offset + dirent_size * length names < 2 ^ 64
      → length names < f
      → name_max + 3 ≤ host.print_fuel
      → Shows f d names s
  unfolding show_names
  ls_loop-Shows zero d names s apart format h pos small fuel long = absurd (omega (arith, fuel))
  ls_loop-Shows (suc f) d [] s apart format h pos small fuel long = record {
    last = d;
    after = s;
    result = ls_loop-stop f d s (readdir_end (host.memory s) d h);
    shown = refl;
  }
  ls_loop-Shows (suc f) d (xs ∷ names) s apart format h pos small fuel long =
      let m = host.memory s in
      let p = d.dents + d.offset in
      let next = p + dirent_size in
      let d1 : Dir = record d { offset = d.offset + dirent_size } in
      let at : next ≡ d.dents + d1.offset = omega arith in
      let line =
        print-line (p + 18) xs s p (p + dirent_size * length (xs ∷ names) + 8) apart format h.2
          (omega (arith, h.3, long)) in
      let s1 = host.set_output line.0 s in
      let rest =
        Lists-agree names next m (host.memory s1)
          (λ j a b. apart.listing_kept line.0 s j (omega (arith, a)) (omega (arith, b))) h.4 in
      let format1 =
        Holds-agree m (host.memory s1) texts.name_line line_format
          (λ j a b. apart.format_kept line.0 s j a b) format in
      let r =
        ls_loop-Shows f d1 names s1
          (record {
            output_set = apart.output_set;
            listing_kept =
                λ o t j a b. apart.listing_kept o t j (omega (arith, a)) (omega (arith, b));
            format_kept = apart.format_kept;
          })
          format1 (subst (λ q. Lists (host.memory s1) q names) at rest) pos (omega (arith, small))
          (omega (arith, fuel)) long in
      record {
        last = r.last;
        after = r.after;
        result =
            ls_loop-entry f p d d1 s s1 (readdir_entry m d h.0 h.1 (omega (arith, small)))
              (λ e. omega (arith, pos, e)) line.1
            ∙ r.result;
        shown = r.shown ∙ ap (show_names names) line.2;
      }
