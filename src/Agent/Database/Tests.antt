-- ===== src/Agent/Database/Tests.antt =====
-- Names and statements of mariadb.go.
use gratis.Base.{refl, length, ◌≡◌, none, []}
use gratis.Text.{bytes}
use gratis.Host.{◌>>=◌, Env}
use gratis.Agent.Database.{ident_byte, check_names, create_database, valid_ident}

abbrev quiet : Env
quiet t c = record { text = []; number = 0; failure = none }

-- The names "shop" and "bob" are valid, and one with a backtick is refused without a statement.
database_tests :
    (length (create_database quiet (bytes "shop") (bytes "bob") (bytes "secret") []).1 ≡ 4)
    × ((create_database quiet (bytes "a`b") (bytes "bob") (bytes "secret") []).1 ≡ [])
unfolding create_database check_names valid_ident ident_byte bytes ◌>>=◌
database_tests = (refl, refl)
