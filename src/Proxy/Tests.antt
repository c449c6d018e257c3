-- ===== src/Proxy/Tests.antt =====
-- Runs of the two tools on three proxies, two of which are the same.
use api_poll.Prelude.{◌≡◌, refl, arith, [], ◌∷◌, utf8, length}
use api_poll.Prelude.Int.{pos}
use api_poll.Prelude.Trim.{trim_space}
use api_poll.Proxy.{Proxy, proxy_string, proxy_line, clear_duplicates, cleared_file, reformat}
use api_poll.Proxy.Lines.{IsPlain, entries, reformat-cleared_file}

abbrev first : Proxy
first = record { username = utf8 "u"; password = utf8 "p"; host = utf8 "1.2"; port = pos 80 }

abbrev second : Proxy
second = record { username = utf8 "v"; password = utf8 "q"; host = utf8 "3.4"; port = pos 81 }

prints : proxy_string first ≡ utf8 "http://u:p@1.2:80"
unfolding proxy_string
prints = refl

first-IsPlain : IsPlain first
unfolding trim_space proxy_line
first-IsPlain = record {
  host_parts = (omega arith, (omega arith, (omega arith, tt)));
  username_parts = (omega arith, tt);
  password_parts = (omega arith, tt);
  host_line = (omega arith, (omega arith, (omega arith, tt)));
  username_line = (omega arith, tt);
  password_line = (omega arith, tt);
  trimmed = refl;
}

reformat-cleared_file_example : reformat (utf8 "  ") (cleared_file (first ∷ first ∷ [])) ≡ record {
  lines = utf8 "  proxies:" ∷ entries (utf8 "  ") (clear_duplicates [] (first ∷ first ∷ []));
  success_count = length (clear_duplicates [] (first ∷ first ∷ []));
  fail_count = 1;
}
reformat-cleared_file_example =
    reformat-cleared_file (utf8 "  ") (first ∷ first ∷ []) (first-IsPlain, (first-IsPlain, tt))
