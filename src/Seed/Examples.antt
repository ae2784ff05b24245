-- ===== src/Seed/Examples.antt =====
-- Files on which the theorems about seeding are applied. The functions on texts are stood in for by
-- ones that know a few texts.
use tasker_rfid.Prelude.{
  ◌≡◌, refl, true, false, none, some, List, [], ◌∷◌, string_eq, ◌==◌, if◌then◌else◌,
}
use tasker_rfid.Prelude.Results.{ok}
use tasker_rfid.Seed.{
  Texts, SkuRow, CustomerRow, Sku, Customer, Tables, parse_bool, check_raises, sku_problems,
  check_skus_from, customer_problems, check_customers_from, sku_params, customer_params, upsert,
  upsert_all, seed,
}
use tasker_rfid.Seed.Loading.{seed_again}

abbrev texts : Texts
texts = record {
  lower = λ s. s;
  isdigit = λ s. s == "24";
  int = λ s. if s == "24" then some 24 else none;
}

abbrev skus : List SkuRow
skus =
    record {
      sku_id = "CONE";
      name = "Cone";
      family = "cones";
      units_per_box = "24";
      tag_class = "";
      active = "yes";
    }
    ∷ []

abbrev customers : List CustomerRow
customers = record { customer_id = "CUST"; name = "Ice & Co"; active = "no" } ∷ []

abbrev cone : Sku
cone = record {
  sku_id = "CONE";
  name = "Cone";
  family = "cones";
  units_per_box = 24;
  tag_class = none;
  active = true;
}

abbrev customer : Customer
customer = record { customer_id = "CUST"; name = "Ice & Co"; active = false }

abbrev old : Tables
old = record { skus = record cone { name = "Old cone" } ∷ []; customers = [] }

abbrev new : Tables
new = record { skus = cone ∷ []; customers = customer ∷ [] }

seeded : seed texts skus customers old ≡ ok new
unfolding seed check_raises check_skus_from sku_problems check_customers_from customer_problems
    parse_bool sku_params customer_params upsert_all upsert
seeded = refl

seed_again_example : seed texts skus customers new ≡ ok new
seed_again_example = seed_again texts skus customers old new seeded
