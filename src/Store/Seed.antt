-- ===== src/Store/Seed.antt =====
-- The tables as bill/migrations leave them on a new database: the currencies of
-- 2_currencies.up.sql and the clients of 8_clients.up.sql, and no bills.
use redesigned_disco.Prelude.{String, ℕ, List, [], ◌∷◌}
use redesigned_disco.Models.{CurrencyMeta}
use redesigned_disco.Store.{Db, Client, ClientStatus, active, suspended}

abbrev currency_row : String → String → ℕ → ℕ → CurrencyMeta
currency_row code name numeric minor = record {
  code = code;
  name = name;
  numeric_code = numeric;
  decimals = minor;
}

abbrev pub seeded_currencies : List CurrencyMeta
seeded_currencies =
    currency_row "USD" "US Dollar" 840 2
    ∷ currency_row "EUR" "Euro" 978 2
    ∷ currency_row "GBP" "Pound Sterling" 826 2
    ∷ currency_row "GEL" "Lari" 981 2
    ∷ currency_row "JPY" "Yen" 392 0
    ∷ currency_row "KRW" "Won" 410 0
    ∷ currency_row "BHD" "Bahraini Dinar" 48 3
    ∷ currency_row "KWD" "Kuwaiti Dinar" 414 3
    ∷ []

abbrev client_row : String → String → ClientStatus → Client
client_row id name status = record { id = id; name = name; status = status }

abbrev pub seeded_clients : List Client
seeded_clients =
    client_row "acct-alpha" "Alpha Demo Co" active
    ∷ client_row "acct-beta" "Beta Demo Ltd" active
    ∷ client_row "acct-suspended" "Suspended Demo SA" suspended
    ∷ []

abbrev pub migrated : {D : Type 0} → Db D
migrated = record {
  bills = [];
  items = [];
  events = [];
  currencies = seeded_currencies;
  clients = seeded_clients;
}
