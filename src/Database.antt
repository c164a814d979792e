-- ===== src/Database.antt =====
-- The tables of src/database/models.py: a record for each class, with its columns, and the tables
-- that a session sees. A table is the list of its rows, in the order in which the server returns
-- them; the theorems hold for every order. A relationship is followed by its foreign key.
mod Rows
mod Tables
pub use Rows.*
pub use Tables.*
unfoldable pub use Tables.{quantity_limit, positive_cart_item_quantity}
