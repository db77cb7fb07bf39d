-- ===== src/Cmd/Options/Reading.antt =====
-- dns/cmd/homedns-dns/main.go: a command line of the benchmark command is read as the flags that it gives.
use Prim.Native.String.{String}
use homedns_analytics.Common.{◌≡◌, refl, ap, ◌∙◌, Option, none, some, List, [], ◌∷◌, ok, arith}
use homedns_analytics.Cmd.Flags.{parse, parse_one, read_token, flag_token, cut}
use homedns_analytics.Strings.{strip_prefix}
use homedns_analytics.Cmd.Options.{
  FlagValues, BenchmarkFlags, initial_flags, benchmark_formal, set_benchmark_flag,
  benchmark_flag_set,
}
use homedns_analytics.Cmd.Options.Given.{
  Figure, Given, text_of, value_of, text_or, option, sees, arguments_of, flags_of,
}

module _ (vals : FlagValues) where
  parse_config :
      (v : String) (args : List String) (s : BenchmarkFlags) (ps : List (String × Option String))
      → s.actual ≡ sees ps
      → parse (benchmark_flag_set vals) ("--config" ∷ v ∷ args) s
        ≡ parse
            (benchmark_flag_set vals)
            args
            (record s { config = v; actual = sees (("config", some v) ∷ ps) })
  unfolding parse parse_one read_token flag_token cut strip_prefix benchmark_formal
      set_benchmark_flag sees
  parse_config v args s ps h =
      ap
        (λ a. parse (benchmark_flag_set vals) args (record s { config = v; actual = "config" ∷ a }))
        h

  parse_profile :
      (o : Option String) (args : List String) (s : BenchmarkFlags)
      (ps : List (String × Option String))
      → s.actual ≡ sees ps
      → parse (benchmark_flag_set vals) (option "--profile" o args) s
        ≡ parse
            (benchmark_flag_set vals)
            args
            (record s { profile = text_or o s.profile; actual = sees (("profile", o) ∷ ps) })
  unfolding parse parse_one read_token flag_token cut strip_prefix benchmark_formal
      set_benchmark_flag sees
  parse_profile none args s ps h =
      ap (λ a. parse (benchmark_flag_set vals) args (record s { actual = a })) h
  parse_profile (some v) args s ps h =
      ap
        (λ a.
          parse (benchmark_flag_set vals) args (record s { profile = v; actual = "profile" ∷ a }))
        h

  parse_output :
      (o : Option String) (args : List String) (s : BenchmarkFlags)
      (ps : List (String × Option String))
      → s.actual ≡ sees ps
      → parse (benchmark_flag_set vals) (option "--output" o args) s
        ≡ parse
            (benchmark_flag_set vals)
            args
            (record s { output = text_or o s.output; actual = sees (("output", o) ∷ ps) })
  unfolding parse parse_one read_token flag_token cut strip_prefix benchmark_formal
      set_benchmark_flag sees
  parse_output none args s ps h =
      ap (λ a. parse (benchmark_flag_set vals) args (record s { actual = a })) h
  parse_output (some v) args s ps h =
      ap
        (λ a. parse (benchmark_flag_set vals) args (record s { output = v; actual = "output" ∷ a }))
        h

  parse_queries :
      (o : Option (Figure vals.parse_int)) (args : List String) (s : BenchmarkFlags)
      (ps : List (String × Option String))
      → s.actual ≡ sees ps
      → parse (benchmark_flag_set vals) (option "--queries" (text_of o) args) s
        ≡ parse (benchmark_flag_set vals) args (record s {
          queries = value_of o s.queries;
          actual = sees (("queries", (text_of o)) ∷ ps);
        })
  unfolding parse parse_one read_token flag_token cut strip_prefix benchmark_formal
      set_benchmark_flag sees
  parse_queries none args s ps h =
      ap (λ a. parse (benchmark_flag_set vals) args (record s { actual = a })) h
  parse_queries (some f) args s ps h = ground (arith, f.reads, h)

  parse_warmup :
      (o : Option (Figure vals.parse_int)) (args : List String) (s : BenchmarkFlags)
      (ps : List (String × Option String))
      → s.actual ≡ sees ps
      → parse (benchmark_flag_set vals) (option "--warmup" (text_of o) args) s
        ≡ parse (benchmark_flag_set vals) args (record s {
          warmup = value_of o s.warmup;
          actual = sees (("warmup", (text_of o)) ∷ ps);
        })
  unfolding parse parse_one read_token flag_token cut strip_prefix benchmark_formal
      set_benchmark_flag sees
  parse_warmup none args s ps h =
      ap (λ a. parse (benchmark_flag_set vals) args (record s { actual = a })) h
  parse_warmup (some f) args s ps h = ground (arith, f.reads, h)

  parse_concurrency :
      (o : Option (Figure vals.parse_int)) (args : List String) (s : BenchmarkFlags)
      (ps : List (String × Option String))
      → s.actual ≡ sees ps
      → parse (benchmark_flag_set vals) (option "--concurrency" (text_of o) args) s
        ≡ parse (benchmark_flag_set vals) args (record s {
          concurrency = value_of o s.concurrency;
          actual = sees (("concurrency", (text_of o)) ∷ ps);
        })
  unfolding parse parse_one read_token flag_token cut strip_prefix benchmark_formal
      set_benchmark_flag sees
  parse_concurrency none args s ps h =
      ap (λ a. parse (benchmark_flag_set vals) args (record s { actual = a })) h
  parse_concurrency (some f) args s ps h = ground (arith, f.reads, h)

  parse_timeout :
      (o : Option (Figure vals.parse_duration)) (args : List String) (s : BenchmarkFlags)
      (ps : List (String × Option String))
      → s.actual ≡ sees ps
      → parse (benchmark_flag_set vals) (option "--timeout" (text_of o) args) s
        ≡ parse (benchmark_flag_set vals) args (record s {
          timeout = value_of o s.timeout;
          actual = sees (("timeout", (text_of o)) ∷ ps);
        })
  unfolding parse parse_one read_token flag_token cut strip_prefix benchmark_formal
      set_benchmark_flag sees
  parse_timeout none args s ps h =
      ap (λ a. parse (benchmark_flag_set vals) args (record s { actual = a })) h
  parse_timeout (some f) args s ps h = ground (arith, f.reads, h)

  parse_query_type :
      (o : Option String) (args : List String) (s : BenchmarkFlags)
      (ps : List (String × Option String))
      → s.actual ≡ sees ps
      → parse (benchmark_flag_set vals) (option "--query-type" o args) s
        ≡ parse (benchmark_flag_set vals) args (record s {
          query_type = text_or o s.query_type;
          actual = sees (("query-type", o) ∷ ps);
        })
  unfolding parse parse_one read_token flag_token cut strip_prefix benchmark_formal
      set_benchmark_flag sees
  parse_query_type none args s ps h =
      ap (λ a. parse (benchmark_flag_set vals) args (record s { actual = a })) h
  parse_query_type (some v) args s ps h =
      ap
        (λ a.
          parse (benchmark_flag_set vals) args
            (record s { query_type = v; actual = "query-type" ∷ a }))
        h

  parse_domains :
      (o : Option String) (args : List String) (s : BenchmarkFlags)
      (ps : List (String × Option String))
      → s.actual ≡ sees ps
      → parse (benchmark_flag_set vals) (option "--domains" o args) s
        ≡ parse
            (benchmark_flag_set vals)
            args
            (record s { domains = text_or o s.domains; actual = sees (("domains", o) ∷ ps) })
  unfolding parse parse_one read_token flag_token cut strip_prefix benchmark_formal
      set_benchmark_flag sees
  parse_domains none args s ps h =
      ap (λ a. parse (benchmark_flag_set vals) args (record s { actual = a })) h
  parse_domains (some v) args s ps h =
      ap
        (λ a.
          parse (benchmark_flag_set vals) args (record s { domains = v; actual = "domains" ∷ a }))
        h

  -- The arguments are read as the flags that they give.
  pub parse_given :
      (g : Given vals)
      → parse (benchmark_flag_set vals) (arguments_of g) initial_flags ≡ ok (flags_of g, [])
  unfolding parse sees
  parse_given g =
      parse_config g.config _ _ [] refl
      ∙ parse_profile g.profile _ _ _ refl
      ∙ parse_output g.output _ _ _ refl
      ∙ parse_queries g.queries _ _ _ refl
      ∙ parse_warmup g.warmup _ _ _ refl
      ∙ parse_concurrency g.concurrency _ _ _ refl
      ∙ parse_timeout g.timeout _ _ _ refl
      ∙ parse_query_type g.query_type _ _ _ refl
      ∙ parse_domains g.domains [] _ _ refl
