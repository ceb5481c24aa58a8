-- ===== src/Web.antt =====
-- web/app.py: the demo CRM. The database is its three tables; SQLite runs the query of `customer`,
-- which is a parameter. Rows that an exception leaves uncommitted are rolled back; tables stay.
pub mod Init
use k3df.Base.{
  ℕ, Bool, true, false, ◌||◌, String, ◌<>◌, Option, none, some, List, [], ◌∷◌, codes, length, any,
  ltb, eqb, if◌then◌else◌, Error, value_error,
}
use k3df.Json.{Value, str, arr, obj, Fields, end, field, items}

pub record User : Type 0 where
  pub id : ℕ
  pub username : String
  pub password : String
  pub role : String

pub record Customer : Type 0 where
  pub id : ℕ
  pub name : String
  pub email : String
  pub company : String
  pub secret : String

-- The one row of `ap2_ssh_credential`.
pub record Account : Type 0 where
  pub username : String
  pub password : String

pub record Database : Type 0 where
  pub users : List User
  pub customers : List Customer
  pub credential : Option Account

abbrev user : ℕ → String → String → String → User
user id username password role = record {
  id = id;
  username = username;
  password = password;
  role = role;
}

abbrev customer_row : ℕ → String → String → String → String → Customer
customer_row id name email company secret = record {
  id = id;
  name = name;
  email = email;
  company = company;
  secret = secret;
}

abbrev pub first_users : List User
first_users = user 1 "admin" "admin123" "admin" ∷ user 2 "alice" "alice123" "user" ∷ []

abbrev pub first_customers : List Customer
first_customers =
    customer_row 1 "Alice Tanaka" "alice@example.com" "ABC Corp" "VIP-001"
    ∷ customer_row 2 "Bob Suzuki" "bob@example.com" "XYZ Inc" "VIP-002"
    ∷ customer_row 3 "Carol Sato" "carol@example.com" "Demo Ltd" "SECRET-003"
    ∷ []

-- `SELECT COUNT(*)` is 0: the rows are inserted.
abbrev pub fill : {A : Type 0} → List A → List A → List A
fill rows [] = rows
fill rows (x ∷ xs) = x ∷ xs

abbrev pub fill_tables : Database → Database
fill_tables db = record db {
  users = fill first_users db.users;
  customers = fill first_customers db.customers;
}

-- A character of `"\r\n\0"`.
abbrev pub is_line_end : ℕ → Bool
is_line_end c = eqb c 13 || eqb c 10 || eqb c 0

abbrev pub store_password : String → Database → Database
store_password p db = record (fill_tables db) {
  credential = some (record { username = "ap02user"; password = p });
}

-- `init_db` for the environment variable, on a database whose tables may be new and empty.
unfoldable pub init_db : Option String → Database → Database × Option Error
init_db none db = (fill_tables db, none)
init_db (some p) db =
    if ltb (length (codes p)) 32 || any is_line_end (codes p)
    then (db, some value_error)
    else (store_password p db, none)

-- The page that `index` returns.
abbrev index : String
index =
    "\n" <> "    <html>\n" <> "      <head>\n" <> "        <title>K3 Defender Lab</title>\n"
    <> "      </head>\n" <> "      <body>\n" <> "        <h1>K3 Defender Lab</h1>\n"
    <> "        <ul>\n" <> "          <li><a href=\"/health\">Health</a></li>\n"
    <> "          <li><a href=\"/customer?id=1\">Customer #1</a></li>\n" <> "        </ul>\n"
    <> "      </body>\n" <> "    </html>\n" <> "    "

record Document : Type 0 where
  text : String
  content_type : String

-- `sitemap`
abbrev sitemap : Document
sitemap = record {
  text =
      "<?xml version=\"1.0\" encoding=\"UTF-8\"?>\n"
      <> "<urlset xmlns=\"http://www.sitemaps.org/schemas/sitemap/0.9\">\n"
      <> "  <url><loc>/ap1/</loc></url>\n" <> "  <url><loc>/ap1/protected</loc></url>\n"
      <> "</urlset>\n";
  content_type = "application/xml";
}

pub record Page : Type 0 where
  pub status : ℕ
  pub body : Value

-- `health`
abbrev pub health : Page
health = record { status = 200; body = obj (field "status" (str "ok") end) }

-- `customer` for the query parameter; `execute` gives the rows, or the text of an exception.
pub data Answer : Type 0 where
  rows : List Value → Answer
  failed : String → Answer

abbrev id_or_one : Option String → String
id_or_one none = "1"
id_or_one (some id) = id

abbrev pub page_of : Answer → Page
page_of (failed e) = record {
  status = 500;
  body = obj (field "error" (str "database error") (field "detail" (str e) end));
}
page_of (rows vs) = record { status = 200; body = obj (field "customers" (arr (items vs)) end) }

unfoldable pub customer : (String → Database → Answer) → Option String → Database → Page
customer execute id db = page_of (
    execute ("SELECT id, name, email, company, secret FROM customers WHERE id = " <> id_or_one id)
      db)
