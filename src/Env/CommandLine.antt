-- ===== src/Env/CommandLine.antt =====
-- `iotjs_environment_parse_command_line_arguments` and `iotjs_environment_destroy` of
-- src/iotjs_env.c.
use native.Mathlib.Nat.{mod-eq_of_lt}
use ble_central.Base.{
  ℕ, zero, suc, ◌+◌, ◌-◌, ◌*◌, ◌/◌, ◌%◌, ◌^◌, ◌<◌, ◌≡◌, refl, ap, ap₂, sym, ◌∙◌, arith, true, List,
  [], ◌∷◌, ◌++◌, map, append_assoc, Option, none, some, lt→ltb, length, length-append, drop,
  get_elem?-drop, get_elem?, set-append, replicate, length-replicate, take-all, ok,
}
use ble_central.Memory.Patch.{patch}
use ble_central.Memory.{strlen, Allocator, u32_mod}
use ble_central.Memory.Laws.{
  buffer_release_lem, NoNul, IsAmple, strlen_lem, buffer_allocate_lem, write_at_lem,
}
use ble_central.Env.{
  Environment, Config, copy_arg, copy_args, put, options, dashes, memstat_flag, show_opcodes_flag,
  take_args, parse_command_line_arguments, release_args, destroy, release,
}

-- A C string.
abbrev pub IsCString : List ℕ → Type 0
IsCString s = (t : List ℕ) × NoNul t × (s ≡ t ++ (0 ∷ [])) × (length s < u32_mod)

abbrev pub AllCString : List (List ℕ) → Type 0
AllCString [] = Unit {0}
AllCString (s ∷ ss) = IsCString s × AllCString ss

patch_whole : (xs bs : List ℕ) → length xs ≡ length bs → patch xs 0 bs ≡ bs
patch_whole [] [] e = refl
patch_whole [] (b ∷ bs) e = absurd (omega arith)
patch_whole (x ∷ xs) [] e = absurd (omega arith)
patch_whole (x ∷ xs) (b ∷ bs) e = ap (λ l. b ∷ l) (patch_whole xs bs (omega arith))

-- The copy that the application gets of an argument is the argument.
copy_arg_lem : (a : Allocator) (s : List ℕ) → IsAmple a → IsCString s → copy_arg a s ≡ ok s
unfolding copy_arg
copy_arg_lem a s ample (t, clean, e, small) =
    let size : length s ≡ length t + 1 = ap length e ∙ length-append t (0 ∷ []) in
    let m : (length t + 1) % u32_mod ≡ length s =
      mod-eq_of_lt {n = length t + 1} {m = u32_mod} (omega arith) ∙ sym size in
    let n : strlen s ≡ ok (length t) = ap strlen e ∙ strlen_lem t [] clean in
    rw n (
      rw m (
        rw (buffer_allocate_lem a (length s) (ample (length s) small)) (
          rw (take-all s (suc (length t)) (omega arith)) (
            write_at_lem (replicate (length s) 0) 0 s
              (omega (arith, length-replicate {A = ℕ} (length s) 0))
            ∙ ap ok (patch_whole (replicate (length s) 0) s (length-replicate (length s) 0))))))

put_lem :
    (xs : List (Option (List ℕ))) (i n : ℕ) (s : List ℕ)
    → i ≡ length xs
    → put (xs ++ replicate (suc n) none) i s ≡ ok ((xs ++ (some s ∷ [])) ++ replicate n none)
unfolding put
put_lem xs i n s e =
    rw
      (lt→ltb i (length (xs ++ replicate (suc n) none))
        (omega (arith, length-append xs (replicate (suc n) none))))
      (ap ok (set-append xs i n none (some s) e))

copy_args_lem :
    (a : Allocator) (xs : List (Option (List ℕ))) (i : ℕ) (ss : List (List ℕ))
    → IsAmple a
    → i ≡ length xs
    → AllCString ss
    → copy_args a (xs ++ replicate (length ss) none) i ss ≡ ok (i + length ss, xs ++ map some ss)
unfolding copy_args
copy_args_lem a xs i [] ample e cs = ap (λ k. ok (k, xs ++ [])) (omega arith)
copy_args_lem a xs i (s ∷ ss) ample e cs = rw (copy_arg_lem a s ample cs.0) (
    rw (put_lem xs i (length ss) s e) (
      copy_args_lem a (xs ++ (some s ∷ [])) (suc i) ss ample
        (omega (arith, length-append xs (some s ∷ []))) cs.1
      ∙ ap₂ (λ k l. ok (k, l)) (omega arith) (append_assoc xs (some s ∷ []) (map some ss))))

-- An option that is known.
pub data Flag : Type 0 where
  memstat show_opcodes : Flag

abbrev pub flag_text : Flag → List ℕ
flag_text memstat = memstat_flag ++ (0 ∷ [])
flag_text show_opcodes = show_opcodes_flag ++ (0 ∷ [])

abbrev pub with_flags : Config → List Flag → Config
with_flags c [] = c
with_flags c (memstat ∷ fs) = with_flags (record c { memstat = true }) fs
with_flags c (show_opcodes ∷ fs) = with_flags (record c { show_opcode = true }) fs

options_lem :
    (c : Config) (fs : List Flag) (rest : List (List ℕ))
    → options c (map flag_text fs ++ ((dashes ++ (0 ∷ [])) ∷ rest))
      ≡ ok (with_flags c fs, some rest)
unfolding options
options_lem c [] rest = refl
options_lem c (memstat ∷ fs) rest = options_lem (record c { memstat = true }) fs rest
options_lem c (show_opcodes ∷ fs) rest = options_lem (record c { show_opcode = true }) fs rest

-- The environment that a command line with these options and application arguments gives.
abbrev pub parsed : Environment → List Flag → List ℕ → List ℕ → List (List ℕ) → Environment
parsed e fs arg0 arg1 rest = record e {
  config = with_flags e.config fs;
  argc = 2 + length rest;
  argv = some (map some (arg0 ∷ arg1 ∷ rest));
}

drop-suc : (zs : List (Option (List ℕ))) (i : ℕ) → drop (suc i) zs ≡ drop 1 (drop i zs)
drop-suc [] zero = refl
drop-suc [] (suc i) = refl
drop-suc (z ∷ zs) zero = refl
drop-suc (z ∷ zs) (suc i) = drop-suc zs i

release_args_lem :
    (zs : List (Option (List ℕ))) (i : ℕ) (ys : List (List ℕ))
    → drop i zs ≡ map some ys
    → release_args zs i (length ys) ≡ ok tt
unfolding release_args
release_args_lem zs i [] e = refl
release_args_lem zs i (y ∷ ys) e =
    let here : get_elem? zs i ≡ some (some y) =
      ap (get_elem? zs) (omega arith) ∙ sym (get_elem?-drop i zs 0) ∙ ap (λ l. get_elem? l 0) e in
    rw here
      (rw (buffer_release_lem y) (release_args_lem zs (suc i) ys (drop-suc zs i ∙ ap (drop 1) e)))

-- The slots of the block for `n` pointers.
slots_lem : (n : ℕ) → n < 2 ^ 29 → length {A = ℕ} (replicate (n * 8 % u32_mod) 0) / 8 ≡ n
slots_lem n h = omega (arith, length-replicate {A = ℕ} (n * 8 % u32_mod) 0)

take_args_lem :
    (a : Allocator) (e : Environment) (c : Config) (arg0 arg1 : List ℕ) (rest : List (List ℕ))
    → IsAmple a
    → AllCString rest
    → 2 + length rest < 2 ^ 29
    → take_args a e c arg0 arg1 rest
      ≡ ok (
        record e {
          config = c;
          argc = 2 + length rest;
          argv = some (map some (arg0 ∷ arg1 ∷ rest));
        },
        true,
      )
unfolding take_args
take_args_lem a e c arg0 arg1 rest ample cs small =
    rw
      (buffer_allocate_lem a ((2 + length rest) * 8 % u32_mod)
        (ample ((2 + length rest) * 8 % u32_mod) (omega arith)))
      (rw (slots_lem (2 + length rest) small ∙ two) (
        rw (put_lem [] 0 (suc (length rest)) arg0 refl) (
          rw (put_lem (some arg0 ∷ []) 1 (length rest) arg1 refl)
            (rw (copy_args_lem a (some arg0 ∷ some arg1 ∷ []) 2 rest ample refl cs) refl))))
  where
    two : 2 + length rest ≡ suc (suc (length rest))
    two = omega arith

-- An environment with these arguments can be released.
pub release_lem :
    (e : Environment) (arg0 arg1 : List ℕ) (rest : List (List ℕ))
    → e.argc ≡ 2 + length rest
    → e.argv ≡ some (map some (arg0 ∷ arg1 ∷ rest))
    → release (some e) ≡ ok none
unfolding release destroy
release_lem e arg0 arg1 rest n v =
    let less : e.argc - 2 ≡ length rest = omega arith in
    rw v (rw less (rw (release_args_lem (map some (arg0 ∷ arg1 ∷ rest)) 2 rest refl) refl))

-- A command line `iotjs file options -- arguments`, with known options, C strings as arguments,
-- fewer than 2^29 of them and an allocator with room: it is accepted, each option is set, the
-- environment's `argv` is the two first words and a copy of every argument after `--`, in order
-- and within the block that was allocated for it, and all of it can be released.
pub parse_lem :
    (a : Allocator) (e : Environment) (arg0 arg1 : List ℕ) (fs : List Flag) (rest : List (List ℕ))
    → IsAmple a
    → AllCString rest
    → 2 + length rest < 2 ^ 29
    → (parse_command_line_arguments a e
          (arg0 ∷ arg1 ∷ (map flag_text fs ++ ((dashes ++ (0 ∷ [])) ∷ rest)))
        ≡ ok (parsed e fs arg0 arg1 rest, true))
      × (release (some (parsed e fs arg0 arg1 rest)) ≡ ok none)
unfolding parse_command_line_arguments
parse_lem a e arg0 arg1 fs rest ample cs small = (
  rw (options_lem e.config fs rest)
      (take_args_lem a e (with_flags e.config fs) arg0 arg1 rest ample cs small),
  release_lem (parsed e fs arg0 arg1 rest) arg0 arg1 rest refl refl,
)
