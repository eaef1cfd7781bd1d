-- ===== src/Session/Print.antt =====
-- What `connect` of src/session.rs prints: the banner `print_config`, and the result. Printing a
-- number is the standard library's, and the JSON of a result serde_json's.
use Prim.Native.String.{◌++◌}
use andri.Common.{
  ℕ, ◌/◌, List, [], ◌∷◌, String, Bool, true, false, if◌then◌else◌, not, ◌≡◌, refl, inl, inr,
  Bool-cases, ◌⊎◌,
}
use mathlib.Core.Option
use andri.Io.{IoError, IoResult, IoResult-cases, ok, err}
use andri.Float.{Float}
use andri.Cli
use andri.Cli.{Cli, ClientOpts, Format}
use andri.Cli.Show.{mode_name, render}
use andri.Proto.Messages.{TestResult}
use andri.Proto.Stream.{Stream, Codec}
use andri.Session.DataPath.{ClientSide}
use andri.Session.Server.{version}
use andri.Session.Client.{
  write_buf, warmup_secs, is_udp, is_file, bind_ok, plan, client_session, connect,
}
use andri.Udp.EndToEnd.{Counted}

-- `{:?}` of a format, and `{}` of a flag.
abbrev pub debug_format : Format → String
debug_format Format.bits = "Bits"
debug_format Format.bytes = "Bytes"
debug_format Format.mbps = "Mbps"
debug_format Format.gbps = "Gbps"

abbrev pub show_bool : Bool → String
show_bool true = "true"
show_bool false = "false"

-- Lines one after the other.
abbrev pub join : List String → String
join [] = ""
join (s ∷ rest) = s ++ join rest

module _ (fl : Float) (fixed : ℕ → fl.F → String) (decimal : ℕ → String) where
  open fl use {F, of_u64, mul}

  abbrev rate_lines : Cli → Cli.Mode → List String → List String
  rate_lines args mode rest =
      let opts = args.client_opts in
      if is_udp mode
      then ("  bitrate    " ++ render fl fixed args.format (of_u64 (Option.get_or opts.bitrate 0)))
        ∷ ("  packet     " ++ decimal opts.packet ++ " bytes")
        ∷ rest
      else ("  streams    " ++ decimal opts.parallel)
        ∷ ("  buffer     " ++ decimal (write_buf / 1024) ++ " KiB")
        ∷ rest

  -- The lines of the banner, on stderr.
  unfoldable pub print_config : Cli → String → Cli.Mode → List String
  print_config args host mode =
      ("andri " ++ version ++ " — client")
      ∷ ("  target     " ++ host ++ ":" ++ decimal args.port)
      ∷ ("  mode       " ++ mode_name mode)
      ∷ ("  duration   "
          ++ decimal (args.client_opts).duration
          ++ "s (+ "
          ++ decimal warmup_secs
          ++ "s warm-up, excluded)")
      ∷ rate_lines args mode (
          ("  bidir      " ++ show_bool (args.client_opts).bidir)
          ∷ ("  format     " ++ debug_format args.format)
          ∷ ""
          ∷ [])

  -- The result as one text, for a client without `--json`.
  unfoldable pub summary : Format → ClientOpts → Cli.Mode → TestResult F → String
  summary format opts mode r =
      if is_udp mode
      then join (
          "\nUDP: "
          ∷ render fl fixed format r.bits_per_sec
          ∷ " over "
          ∷ fixed 1 r.duration_secs
          ∷ "s | loss "
          ∷ decimal (Option.get_or r.packets_lost 0)
          ∷ "/"
          ∷ decimal (Option.get_or r.packets_expected 0)
          ∷ " ("
          ∷ fixed 2 (mul (Option.get_or r.loss_ratio (of_u64 0)) (of_u64 100))
          ∷ "%) | jitter "
          ∷ fixed 3 (Option.get_or r.jitter_ms (of_u64 0))
          ∷ " ms"
          ∷ [])
      else if is_file mode
      then join (
          "\nFile transfer: "
          ∷ render fl fixed format r.bits_per_sec
          ∷ " over "
          ∷ fixed 3 r.duration_secs
          ∷ "s | "
          ∷ decimal r.bytes
          ∷ " bytes from "
          ∷ (if opts.null_source then "memory (--null-source)" else "disk")
          ∷ [])
      else join (
          "\nTCP throughput: "
          ∷ render fl fixed format r.bits_per_sec
          ∷ " over "
          ∷ fixed 1 r.duration_secs
          ∷ "s, "
          ∷ decimal opts.parallel
          ∷ " stream(s)"
          ∷ [])

  -- What goes to stdout for a result; making the JSON may fail.
  unfoldable pub printed :
      (TestResult F → IoResult String) → Cli → Cli.Mode → TestResult F → IoResult String
  printed pretty args mode r =
      if (args.client_opts).json then pretty r else ok (summary args.format args.client_opts mode r)

  module _ (codec : Codec F) (st : Stream) (side : ClientSide)
      (pretty : TestResult F → IoResult String) where
    -- `connect` with its output: the banner on stderr, once the checks are passed and without
    -- `--json`, and the text on stdout.
    unfoldable pub connect_printing : Cli → String → IoResult st.S → List String × IoResult String
    connect_printing args host opened = elim (plan side args.client_opts) [
      | err e ↦ ([], err e)
      | ok p ↦ (
        (if not (args.client_opts).json then print_config args host p.mode else []),
        bind_ok opened (λ s.
            bind_ok (client_session codec st side args.client_opts p s).0
              (printed pretty args p.mode)),
      )
    ]

    printed-ok :
        ((r : TestResult F) → (text : String) × (pretty r ≡ ok text))
        → (args : Cli) (mode : Cli.Mode) (r : TestResult F)
        → (text : String) × (printed pretty args mode r ≡ ok text)
    unfolding printed
    printed-ok total args mode r = elim (Bool-cases (args.client_opts).json) [
      | inl json ↦ ((total r).0, rw json (total r).1)
      | inr plain ↦ (summary args.format args.client_opts mode r, rw plain refl)
    ]

    -- Where the JSON of every result can be made, printing changes nothing about the outcome: there
    -- is a text on stdout if and only if `connect` has a result, and the error is the same otherwise.
    pub connect_printing-connect :
        (args : Cli) (host : String) (opened : IoResult st.S)
        → ((r : TestResult F) → (text : String) × (pretty r ≡ ok text))
        → ((r : TestResult F) × (text : String) × (connect codec st side args.client_opts opened
              ≡ ok r)
            × ((connect_printing args host opened).1 ≡ ok text))
          ⊎ ((e : IoError) × (connect codec st side args.client_opts opened ≡ err e)
              × ((connect_printing args host opened).1 ≡ err e))
    unfolding connect connect_printing
    connect_printing-connect args host (err e) total =
        elim (IoResult-cases (plan side args.client_opts)) [
          | inl (p, planned) ↦ inr (e, rw planned refl, rw (planned, connect_printing) refl)
          | inr (e', bad) ↦ inr (e', rw bad refl, rw (bad, connect_printing) refl)
        ]
    connect_printing-connect args host (ok s) total =
        elim (IoResult-cases (plan side args.client_opts)) [
          | inr (e', bad) ↦ inr (e', rw bad refl, rw (bad, connect_printing) refl)
          | inl (p, planned) ↦
              elim (IoResult-cases (client_session codec st side args.client_opts p s).0) [
                | inr (e, ended) ↦
                    inr (e, rw (planned, ended) refl, rw (planned, connect_printing, ended) refl)
                | inl (r, got) ↦
                    let t = printed-ok total args p.mode r in
                    inl (r, t.0, rw (planned, got) refl, rw (planned, connect_printing, got) t.1)
              ]
        ]

  -- A run in which no datagram was lost is shown with a loss of 0 out of all that were sent.
  pub summary_lossless :
      (format : Format) (opts : ClientOpts) (n : ℕ) (r : TestResult F)
      → Counted r n n 0
      → summary format opts Cli.Mode.udp r
        ≡ join (
            "\nUDP: "
            ∷ render fl fixed format r.bits_per_sec
            ∷ " over "
            ∷ fixed 1 r.duration_secs
            ∷ "s | loss "
            ∷ decimal 0
            ∷ "/"
            ∷ decimal n
            ∷ " ("
            ∷ fixed 2 (mul (Option.get_or r.loss_ratio (of_u64 0)) (of_u64 100))
            ∷ "%) | jitter "
            ∷ fixed 3 (Option.get_or r.jitter_ms (of_u64 0))
            ∷ " ms"
            ∷ [])
  unfolding summary
  summary_lossless format opts n r h = rw (h.2, h.0) refl
