-- ===== src/Cpu/Governor.antt =====
-- utility_cpu.c: the governor of a processor's frequency, saved and restored.
use realtime_tests.Prelude.{
  ℕ, zero, suc, ◌+◌, ◌<◌, ◌≡◌, refl, ap, ◌∙◌, Bool, true, false, not, Option, none, some, List, [],
  ◌∷◌, ◌++◌, if◌then◌else◌, length, length-append, long_mod, arith,
}
use realtime_tests.Prelude.Int.{ℤ, pos, negsuc}
use realtime_tests.File.{InStream, newline, Read, returned, out_of_bounds, utility_file_readln}
use realtime_tests.File.Lines.{no_buffer}
use realtime_tests.File.Exact.{always, readln-ReadsLine}
use realtime_tests.Cpu.Frequency.{
  Opens, opened, refused, failing, Write, to_governor, c_string, Available, available, crashed,
  cpu_freq_available, cpu_freq_set,
}
use realtime_tests.Cpu.Listed.{IsPrintable, first_line-IsPrintable, c_string-IsPrintable, file_of}

-- The object `cpu_freq_governor`.
pub record CpuFreqGovernor : Type 0 where
  pub which_cpu : ℕ
  pub linux_cpu_governor_name : List ℕ

abbrev pub governor_of : ℕ → Read → Option CpuFreqGovernor
governor_of which_cpu (returned (pos _) s b) =
    some (record { which_cpu = which_cpu; linux_cpu_governor_name = b.text })
governor_of which_cpu (returned (negsuc _) s b) = none
governor_of which_cpu out_of_bounds = none

-- `none` is NULL. `has_object` tells whether there is memory for the object.
unfoldable pub cpu_freq_get_governor :
    (ℕ → Bool) → Bool → ℕ → Option InStream → Option CpuFreqGovernor
cpu_freq_get_governor has_memory false which_cpu file = none
cpu_freq_get_governor has_memory true which_cpu none = none
cpu_freq_get_governor has_memory true which_cpu (some s) =
    governor_of which_cpu (utility_file_readln has_memory s no_buffer 32)

-- The result, what is written, and whether the object is destroyed.
unfoldable pub cpu_freq_restore_governor : Opens → Bool → CpuFreqGovernor → ℤ × List Write × Bool
cpu_freq_restore_governor refused closes governor = (negsuc 1, [], false)
cpu_freq_restore_governor failing closes governor = (negsuc 0, [], false)
cpu_freq_restore_governor opened closes governor =
    let text = to_governor (c_string governor.linux_cpu_governor_name) ∷ [] in
    if not closes then (negsuc 0, text, false) else (pos 0, text, true)

-- How each call of `enter_up_mode_freq_max` finds its files: the lists to read, and the openings
-- for writing by `cpu_freq_set` and by `cpu_freq_restore_governor`.
pub record Files : Type 0 where
  pub locks : Bool
  pub has_list : Bool
  pub has_object : Bool
  pub frequencies : Option InStream
  pub governor : Option InStream
  pub set_governor : Opens
  pub set_speed : Opens
  pub restore : Opens
  pub closes : Bool

-- The result, what is stored at `default_gov`, and what is written, or a read through a null
-- pointer.
pub data Entered : Type 0 where
  entered : ℤ → Option CpuFreqGovernor → List Write → Entered
  null_read : Entered

abbrev pub after_set : Files → CpuFreqGovernor → ℤ × List Write → Entered
after_set f g (pos n, ws) = entered (pos 0) (some g) ws
after_set f g (negsuc zero, ws) =
    entered (negsuc 1) none (ws ++ (cpu_freq_restore_governor f.restore f.closes g).1)
after_set f g (negsuc (suc n), ws) = entered (negsuc 0) none ws

abbrev pub with_governor : Files → ℕ → Option CpuFreqGovernor → Entered
with_governor f max_freq none = entered (negsuc 1) none []
with_governor f max_freq (some g) = after_set f g (cpu_freq_set f.set_governor f.set_speed max_freq)

abbrev pub with_frequencies : Files → (ℕ → Entered) → Available → Entered
with_frequencies f next crashed = null_read
with_frequencies f next (available (negsuc n) list) = entered (negsuc 1) none []
with_frequencies f next (available (pos zero) list) = entered (negsuc 1) none []
with_frequencies f next (available (pos (suc n)) none) = null_read
with_frequencies f next (available (pos (suc n)) (some [])) = null_read
with_frequencies f next (available (pos (suc n)) (some (freq ∷ freqs))) = next freq

unfoldable pub enter_up_mode_freq_max : (ℕ → Bool) → Files → Entered
unfolding cpu_freq_restore_governor
enter_up_mode_freq_max has_memory f =
    let rest =
      with_frequencies f
        (λ max_freq.
          with_governor f max_freq (cpu_freq_get_governor has_memory f.has_object 0 f.governor))
        (cpu_freq_available has_memory f.has_list f.frequencies) in
    if not f.locks then entered (negsuc 1) none [] else rest

-- With memory, a governor whose name is one printable line is got with that name, and restoring
-- it writes exactly the name; the object is destroyed exactly if the file can be opened and closed.
pub cpu_freq_get_governor-restore :
    (which_cpu : ℕ) (name : List ℕ)
    → IsPrintable name
    → length name + 1 + 32 < long_mod
    → (g : CpuFreqGovernor) × (cpu_freq_get_governor always true which_cpu (some (file_of name))
        ≡ some g)
      × (g.which_cpu ≡ which_cpu)
      × ((closes : Bool)
          → cpu_freq_restore_governor opened closes g ≡ (
              if closes
              then (pos 0, to_governor name ∷ [], true)
              else (negsuc 0, to_governor name ∷ [], false)))
unfolding cpu_freq_get_governor cpu_freq_restore_governor
cpu_freq_get_governor-restore which_cpu name h small =
    let read =
      readln-ReadsLine 32 (file_of name) no_buffer
        (record { whole = refl; more = refl; good = refl }) (omega arith)
        (omega (arith, length-append name (newline ∷ []))) in
    let same = read.text ∙ first_line-IsPrintable name [] h in
    let text = ap c_string same ∙ c_string-IsPrintable name h in
    (
      record { which_cpu = which_cpu; linux_cpu_governor_name = (read.b').text },
      ap (governor_of which_cpu) read.returns,
      refl,
      λ closes. ground (arith, text),
    )
