-- ===== src/Bwi/Driver/Config.antt =====
-- bwi-client_server/main.c: a whole configuration, read by utility_file.c.
use realtime_tests.Prelude.{
  ℕ, ◌+◌, ◌<◌, ◌≡◌, refl, ◌∙◌, Bool, List, [], ◌∷◌, Bool-cases, inl, inr, length, long_mod, arith,
}
use realtime_tests.Prelude.Int.{ℤ, pos, negsuc}
use realtime_tests.File.{InStream}
use realtime_tests.File.Lines.{ended, utility_file_read}
use realtime_tests.File.Exact.{always, IsOpen, split, feed, utility_file_read-feed}
use realtime_tests.Bwi.Driver.{Driver, no_procs, parse_line}
use realtime_tests.Bwi.Driver.Linked.{IsLinked, parse_config_file-IsLinked}

module _ (start stop has_buffer has_proc has_args : Bool) where
  abbrev line_fn : List ℕ → Driver → Bool × Driver
  line_fn = parse_line start stop has_buffer has_proc has_args

  feed-IsLinked :
      (ls : List (List ℕ)) (d : Driver)
      → IsLinked d
      → (rc : ℤ) × (d' : Driver) × (feed line_fn ls d ≡ ended rc d') × IsLinked d'
  unfolding feed parse_line
  feed-IsLinked [] d h = (pos 0, d, refl, h)
  feed-IsLinked (l ∷ ls) d h =
      let h' = parse_config_file-IsLinked start stop has_buffer has_proc has_args l d h in
      elim (Bool-cases (line_fn l d).0) [
        | inl over ↦ (negsuc 0, (line_fn l d).1, rw over refl, h')
        | inr more ↦
            let (rc, d', e, linked) = feed-IsLinked ls (line_fn l d).1 h' in
            (rc, d', rw more e, linked)
      ]

  -- Whatever stands in a configuration on a healthy stream that is shorter than 2^64 bytes by
  -- 1024 at least: with memory for its lines, reading it ends, and in the lists that it leaves,
  -- of a success or of a failure, every server that has a subserver has it among the servers
  -- before itself, and every client its server among the servers.
  pub config_lem :
      (file : InStream)
      → IsOpen file
      → length file.rest + 1024 < long_mod
      → (rc : ℤ) × (d : Driver) × (utility_file_read line_fn always file 1024 no_procs ≡ ended rc d)
        × IsLinked d
  config_lem file o small =
      let (rc, d, e, linked) =
        feed-IsLinked (split file.rest) no_procs
          (record { preceding = tt; servers = tt; clients = tt }) in
      (rc, d, utility_file_read-feed line_fn 1024 file no_procs o (omega arith) small ∙ e, linked)
