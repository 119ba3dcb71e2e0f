-- ===== src/Proxy/Caddyfile.antt =====
-- internal/proxy/proxy.go: RenderCaddyfile and RenderMapFile.
use agent_ops.Prelude.{
  ℕ, Str, lit, List, [], ◌∷◌, ◌++◌, ◌==◌, ◌/◌, ◌%◌, ◌+◌, Bool, ◌||◌, is_nil, if◌then◌else◌, ltb,
}
use agent_ops.Prelude.Text.{str_le}
use agent_ops.Prelude.Sort.{sort}

-- the fields that the files are made of
pub record ProxyConfig : Type 0 where
  pub domain_base : Str
  pub ask_url : Str
  pub acme_ca : Str
  pub map_path : Str

abbrev newline_after : Str → Str
newline_after l = l ++ 10 ∷ []

abbrev pub text_lines : List Str → Str
text_lines [] = []
text_lines (l ∷ ls) = newline_after l ++ text_lines ls

-- in the record that RenderCaddyfile gets by value
abbrev pub with_domain : ProxyConfig → ProxyConfig
with_domain c = record c {
  domain_base = if is_nil c.domain_base then lit "example.com" else c.domain_base;
}

abbrev ask_line : ProxyConfig → List Str
ask_line c = if is_nil c.ask_url then [] else (lit "        ask " ++ c.ask_url) ∷ []

abbrev em_dash : Str
em_dash = 226 ∷ 128 ∷ 148 ∷ []

abbrev pub global_options : ProxyConfig → List Str
global_options c =
    (lit "# agent-ops shared-ingress proxy; managed " ++ em_dash ++ lit " do not edit by hand.")
      ∷ lit "{"
      ∷ (lit "    acme_ca " ++ c.acme_ca)
      ∷ lit "    on_demand_tls {"
      ∷ ask_line c
    ++ lit "    }"
      ∷ lit "}"
      ∷ []
      ∷ lit ":80 {"
      ∷ lit "    redir https://{host}{uri} permanent"
      ∷ lit "}"
      ∷ []
      ∷ []

abbrev pub wildcard_site : ProxyConfig → List Str
wildcard_site c =
    (lit "*." ++ c.domain_base ++ lit " {")
    ∷ lit "    tls {"
    ∷ lit "        on_demand"
    ∷ lit "    }"
    ∷ lit "    map {host} {upstream} {"
    ∷ (lit "        import " ++ c.map_path)
    ∷ lit "    }"
    ∷ lit "    @noupstream expression {upstream} == \"\""
    ∷ lit "    respond @noupstream \"no backend for this host\" 502"
    ∷ lit "    reverse_proxy {upstream} {"
    ∷ lit "        header_up Host {host}"
    ∷ lit "    }"
    ∷ lit "    encode gzip zstd"
    ∷ lit "    log {"
    ∷ lit "        output stdout"
    ∷ lit "        format json"
    ∷ lit "    }"
    ∷ lit "}"
    ∷ []

unfoldable pub render_caddyfile : ProxyConfig → Str
render_caddyfile c = let d = with_domain c in text_lines (global_options d ++ wildcard_site d)

pub record Route : Type 0 where
  pub host : Str
  pub upstream : Str

abbrev hex_digit : ℕ → ℕ
hex_digit n = if ltb n 10 then 48 + n else 87 + n

-- one byte in Go syntax; a byte of 0x80 or more stands for itself, as in text that prints
abbrev pub quoted_byte : ℕ → Str
quoted_byte c =
    if (c == 34) || (c == 92)
    then 92 ∷ c ∷ []
    else if c == 7
    then lit "\\a"
    else if c == 8
    then lit "\\b"
    else if c == 9
    then lit "\\t"
    else if c == 10
    then lit "\\n"
    else if c == 11
    then lit "\\v"
    else if c == 12
    then lit "\\f"
    else if c == 13
    then lit "\\r"
    else if ltb c 32 || (c == 127)
    then lit "\\x" ++ hex_digit (c / 16) ∷ hex_digit (c % 16) ∷ []
    else c ∷ []

abbrev quoted_bytes : Str → Str
quoted_bytes [] = []
quoted_bytes (c ∷ cs) = quoted_byte c ++ quoted_bytes cs

-- `%q`
unfoldable pub quote : Str → Str
quote s = 34 ∷ quoted_bytes s ++ 34 ∷ []

unfoldable pub by_host : Route → Route → Bool
by_host a b = str_le a.host b.host

abbrev pub map_line : Route → Str
map_line r = lit "    " ++ quote r.host ++ lit " " ++ quote r.upstream

abbrev pub map_lines : List Route → List Str
map_lines [] = []
map_lines (r ∷ rs) =
    let rest = map_lines rs in
    if is_nil r.host || is_nil r.upstream then rest else map_line r ∷ rest

unfoldable pub render_map_file : List Route → Str
render_map_file routes = text_lines (map_lines (sort by_host routes))
