-- ===== src/Cpu/LoadStore/Keeps.antt =====
-- The loads and stores of compyter/cpu.py leave the cache in agreement with memory.
use compyter.Prelude.{ℕ}
use compyter.Prelude.Int.{ℤ}
use compyter.Memory.{Bus}
use compyter.Cpu.LoadStore.{
  merge_byte, loadw, loadwr, loadwi, savewr, savewi, savewri, loadb, loadbr, loadbi, savebr, savebi,
  savebri, strapr, strapi,
}
use compyter.Cpu.LoadStore.Stores.{IsUncaught, savew-Keeps, saveb-Keeps}
use compyter.Cpu.Keeps.{Keeps, keeps, set-Keeps, trap-Keeps}
use compyter.Cpu.Keeps.Accesses.{get_address-Keeps}

module _ {B : Bus} where
  merge_byte-Keeps : (a b c : ℤ) (k : ℕ) → Keeps {B = B} (merge_byte a b c k)
  unfolding merge_byte
  merge_byte-Keeps a b c k = search (keeps, get_address-Keeps, set-Keeps)

  pub loadw-Keeps : (a b c : ℤ) → Keeps {B = B} (loadw a b c)
  unfolding loadw
  loadw-Keeps a b c =
      search (keeps, get_address-Keeps, merge_byte-Keeps, set-Keeps, trap-Keeps) depth 12

  pub loadwr-Keeps : (a b : ℤ) → Keeps {B = B} (loadwr a b)
  unfolding loadwr
  loadwr-Keeps a b = search (keeps, loadw-Keeps)

  pub loadwi-Keeps : (a b : ℤ) → Keeps {B = B} (loadwi a b)
  unfolding loadwi
  loadwi-Keeps a b = search (keeps, set-Keeps)

  pub savewr-Keeps : IsUncaught B → (a b : ℤ) → Keeps {B = B} (savewr a b)
  unfolding savewr
  savewr-Keeps un a b = search (keeps, savew-Keeps {B = B} un)

  pub savewi-Keeps : IsUncaught B → (a b : ℤ) → Keeps {B = B} (savewi a b)
  unfolding savewi
  savewi-Keeps un a b = search (keeps, savew-Keeps {B = B} un)

  pub savewri-Keeps : IsUncaught B → (a b : ℤ) → Keeps {B = B} (savewri a b)
  unfolding savewri
  savewri-Keeps un a b = search (keeps, savewi-Keeps un)

  pub loadb-Keeps : (a b : ℤ) → Keeps {B = B} (loadb a b)
  unfolding loadb
  loadb-Keeps a b = search (keeps, get_address-Keeps, set-Keeps)

  pub loadbr-Keeps : (a b : ℤ) → Keeps {B = B} (loadbr a b)
  unfolding loadbr
  loadbr-Keeps a b = search (keeps, loadb-Keeps)

  pub loadbi-Keeps : (a b : ℤ) → Keeps {B = B} (loadbi a b)
  unfolding loadbi
  loadbi-Keeps a b = search (keeps, set-Keeps)

  pub savebr-Keeps : IsUncaught B → (a b : ℤ) → Keeps {B = B} (savebr a b)
  unfolding savebr
  savebr-Keeps un a b = search (keeps, saveb-Keeps {B = B} un)

  pub savebi-Keeps : IsUncaught B → (a b : ℤ) → Keeps {B = B} (savebi a b)
  unfolding savebi
  savebi-Keeps un a b = search (keeps, saveb-Keeps {B = B} un)

  pub savebri-Keeps : IsUncaught B → (a b : ℤ) → Keeps {B = B} (savebri a b)
  unfolding savebri
  savebri-Keeps un a b = search (keeps, savebi-Keeps un)

  pub strapr-Keeps : IsUncaught B → (a b : ℤ) → Keeps {B = B} (strapr a b)
  unfolding strapr
  strapr-Keeps un a b = search (keeps, savewi-Keeps un) depth 12

  pub strapi-Keeps : IsUncaught B → (a b : ℤ) → Keeps {B = B} (strapi a b)
  unfolding strapi
  strapi-Keeps un a b = search (keeps, strapr-Keeps un)
