-- ===== src/Audit/Tests.antt =====
-- The filter on commands.
use multi_terminal.Base.{inl, ◌≡◌, refl, sym, some, [], ◌∷◌, ◌++◌, Option}
use multi_terminal.Base.Slices.{codes}
use multi_terminal.Audit.{password_keys, filter, Runes, CommandLog, new_log, log_command}
use multi_terminal.Audit.Filter.{Assignment, shown}
use multi_terminal.Audit.Hiding.{with_secret, filter_hides}

masks : filter (codes "x PassWord = 'hunter2' y") ≡ codes "x PassWord: ***MASKED***' y"
unfolding filter multi_terminal.Audit.replace_all multi_terminal.Audit.replace_from
    multi_terminal.Audit.match_assignment multi_terminal.Audit.match_mysql
    multi_terminal.Audit.first_word multi_terminal.Audit.after_word multi_terminal.Audit.skip_space
    multi_terminal.Audit.skip_quote multi_terminal.Audit.skip_while multi_terminal.Audit.after_some
    multi_terminal.Audit.after_sep
masks = refl

mysqls :
    filter (codes "mysql  -u root -p  abc;token:x")
    ≡ codes "mysql -u root -p ***MASKED*** ***MASKED***"
unfolding filter multi_terminal.Audit.replace_all multi_terminal.Audit.replace_from
    multi_terminal.Audit.match_assignment multi_terminal.Audit.match_mysql
    multi_terminal.Audit.first_word multi_terminal.Audit.after_word multi_terminal.Audit.skip_space
    multi_terminal.Audit.skip_quote multi_terminal.Audit.skip_while multi_terminal.Audit.after_some
    multi_terminal.Audit.after_sep
mysqls = refl

glued : filter (codes "mysql -u root -pabc") ≡ codes "mysql -u root -pabc"
unfolding filter multi_terminal.Audit.replace_all multi_terminal.Audit.replace_from
    multi_terminal.Audit.match_assignment multi_terminal.Audit.match_mysql
    multi_terminal.Audit.first_word multi_terminal.Audit.after_word multi_terminal.Audit.skip_space
    multi_terminal.Audit.skip_quote multi_terminal.Audit.skip_while multi_terminal.Audit.after_some
    multi_terminal.Audit.after_sep
glued = refl

-- `pwd = "a"` and `pwd = "bc"` before a semicolon.
abbrev assigned : Assignment
assigned = record {
  key = codes "Pwd";
  space = 32 ∷ [];
  sep = 61;
  more_space = 32 ∷ [];
  quote = 34 ∷ [];
  first = 97;
  secret = [];
}

filter_hides_example :
    filter (codes "set " ++ shown (with_secret assigned 98 (99 ∷ [])) (codes "\";"))
    ≡ filter (codes "set " ++ shown assigned (codes "\";"))
filter_hides_example =
    filter_hides password_keys assigned 98 (99 ∷ []) (codes "set ") (codes "\";") (inl refl)
      (
        (refl, (refl, (refl, tt))),
        (
          (refl, (refl, (refl, tt))),
          ((refl, (refl, (refl, tt))), ((refl, (refl, (refl, tt))), tt)),
        ),
      )
      (record {
        named = refl;
        spaced = (refl, tt);
        assigned = refl;
        more_spaced = (refl, tt);
        quoted = (refl, refl);
        valued = refl;
        continued = tt;
        ended = refl;
      })
      (record {
        named = refl;
        spaced = (refl, tt);
        assigned = refl;
        more_spaced = (refl, tt);
        quoted = (refl, refl);
        valued = refl;
        continued = (refl, tt);
        ended = refl;
      })

-- An encoding that keeps the raw input only.
abbrev encode : CommandLog → Option Runes
encode log = some log.raw_input

encode_lem :
    (log : CommandLog) (json : Runes)
    → encode log ≡ some json
    → ◌≡◌ {A = Option Runes} (some json) (some log.raw_input)
encode_lem log json e = sym e
