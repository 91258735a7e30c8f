-- ===== src/Command/Search.antt =====
-- The files that the shell's child tries along the path.
use my_sbuos.Base.{
  ℕ, ◌+◌, ◌≤◌, ◌<◌, ◌≡◌, refl, ap, ◌∙◌, ◌⊎◌, inl, Option, List, [], ◌∷◌, ◌++◌, arith, ◌>>=◌, length,
  length-append, Holds-agree,
}
use my_sbuos.Text.Strings.{IsString}
use my_sbuos.Text.Copy.{Copied}
use my_sbuos.Shell.{strcat}
use my_sbuos.Shell.Join.{strcat-Copied}
use my_sbuos.Environment.{Environment}
use my_sbuos.Library.{Host, execve}
use my_sbuos.Command.{Shell, dir_name_len, try_path}

-- The string is still there, when no byte of it was written.
IsString-kept :
    (m m' : ℕ → ℕ) (p : ℕ) (xs : List ℕ)
    → ((j : ℕ) → p ≤ j → j ≤ p + length xs → m' j ≡ m j)
    → IsString m p xs
    → IsString m' p xs
IsString-kept m m' p xs same h = record {
  bytes = h.bytes;
  held =
      Holds-agree m m' p (xs ++ 0 ∷ [])
        (λ j a b. same j a (omega (arith, b, length-append xs (0 ∷ [])))) h.held;
}

-- `execve` runs with `file` in `joined_filename`, before the rest of the path is tried.
pub record Runs (host : Host Environment) (g : Shell) (file es : List ℕ) (name argv : ℕ)
    (s : Environment) (out : Option Environment) : Type 0 where
  pub memory' : ℕ → ℕ
  pub copied : Copied g.joined_filename file s.memory memory'
  pub result : out ≡ (
      execve host g.joined_filename argv g.envp_copy (record s { memory = memory' }) >>= λ r.
      try_path host g es name argv r.2)

-- For an element of the path and a name whose texts fit with a slash between them into
-- `joined_filename`, apart from it, `try_path` runs `execve` on the element, a slash and the name, with
-- no other byte of the memory written, and goes on with the rest of the path when it comes back.
pub try_path-Runs :
    (host : Host Environment) (g : Shell) (e name argv : ℕ) (es dir base : List ℕ) (s : Environment)
    → IsString s.memory e dir
    → IsString s.memory g.slash_text (47 ∷ [])
    → IsString s.memory name base
    → length dir + length base + 2 < dir_name_len
    → (g.joined_filename ≤ e) ⊎ (e + length dir ≤ g.joined_filename)
    → (g.slash_text + 1 < g.joined_filename) ⊎ (g.joined_filename + length dir + 1 < g.slash_text)
    → (name + length base < g.joined_filename)
      ⊎ (g.joined_filename + length dir + 1 + length base < name)
    → Runs host g ((dir ++ 47 ∷ []) ++ base) es name argv s (try_path host g (e ∷ es) name argv s)
unfolding try_path
try_path-Runs host g e name argv es dir base s hd hs hn fits apart_dir apart_slash apart_name =
    let joined = g.joined_filename in
    let len : length (dir ++ 47 ∷ []) ≡ length dir + 1 = length-append dir (47 ∷ []) in
    let c1 =
      strcat-Copied e g.slash_text joined dir_name_len s.memory dir (47 ∷ []) hd hs (omega arith)
        (omega arith) (omega arith) (omega arith) apart_dir (omega arith) in
    let m1 = (strcat e g.slash_text joined dir_name_len s.memory).1 in
    let name1 =
      IsString-kept s.memory m1 name base (λ j a b. c1.1.others j (omega (arith, len))) hn in
    let c2 =
      strcat-Copied joined name joined dir_name_len m1 (dir ++ 47 ∷ []) base c1.1.string name1
        (omega (arith, len)) (omega arith) (omega (arith, len)) (omega arith) (inl (omega arith))
        (omega (arith, len)) in
    let total : length ((dir ++ 47 ∷ []) ++ base) ≡ length dir + 1 + length base =
      length-append (dir ++ 47 ∷ []) base ∙ ap (λ n. n + length base) len in
    record {
      memory' = (strcat joined name joined dir_name_len m1).1;
      copied = record {
        string = c2.1.string;
        others = λ j o. c2.1.others j o ∙ c1.1.others j (omega (arith, o, total, len));
      };
      result = refl;
    }
