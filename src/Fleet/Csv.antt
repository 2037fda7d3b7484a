-- ===== src/Fleet/Csv.antt =====
-- `fleet-csv.ts`: the export of the fleet register, and `normalizeNopol` of fleet-nopol.ts.
use Prim.Native.String
use Prim.Native.Char.{code}
use shipment_tracking_system.Prelude.{
  ℕ, String, Bool, ◌||◌, Option, none, some, List, [], ◌∷◌, ◌++◌, map, ◌==◌, if◌then◌else◌, any,
  codes, str_eq, get, set, is_some, ltb,
}
use shipment_tracking_system.Fleet.Severity.{FleetSeverity, ℤ}

pub record FleetMasterRef : Type 0 where
  pub code : String
  pub label : String

pub record FleetVehicleDocumentView : Type 0 where
  pub code : String
  pub label : String
  pub expires_at : Option String

pub record FleetVehicleDriverView : Type 0 where
  pub nama : String
  pub sim_expires_at : Option String

-- Amounts of money are in hundredths.
pub record FleetVehicleLeaseView : Type 0 where
  pub leasing : Option FleetMasterRef
  pub nomor_kontrak : Option String
  pub cicilan_per_bulan : Option ℕ
  pub tenor_bulan : Option ℕ
  pub angsuran_terbayar : ℕ
  pub sisa_angsuran : ℕ
  pub sisa_kewajiban : ℕ

pub record FleetVehicleView : Type 0 where
  pub nopol : String
  pub merk : Option String
  pub tipe : Option String
  pub tahun : Option ℕ
  pub kapasitas : Option String
  pub no_rangka : Option String
  pub no_mesin : Option String
  pub no_bpkb : Option String
  pub pemilik_unit : Option String
  pub odometer : Option ℕ
  pub catatan : Option String
  pub jenis_armada : Option FleetMasterRef
  pub kepemilikan : Option FleetMasterRef
  pub pool : Option FleetMasterRef
  pub status : Option FleetMasterRef
  pub driver : Option FleetVehicleDriverView
  pub lease : Option FleetVehicleLeaseView
  pub documents : List FleetVehicleDocumentView
  pub worst_severity : FleetSeverity
  pub min_days_left : Option ℤ
  pub berkas_ada : ℕ
  pub berkas_wajib : ℕ

-- `String(n)` of whole numbers, and of amounts in hundredths, as the JavaScript engine writes them.
pub record NumberText : Type 0 where
  pub of_integer : ℤ → String
  pub of_amount : ℕ → String

-- A value of a column; null and undefined are one.
pub data Cell : Type 0 where
  null : Cell
  text : String → Cell
  integer : ℤ → Cell
  amount : ℕ → Cell

abbrev optional : {A : Type 0} → (A → Cell) → Option A → Cell
optional f none = null
optional f (some a) = f a

abbrev count : ℕ → Cell
count n = integer (ℤ.pos n)

abbrev label_of : Option FleetMasterRef → Cell
label_of = optional (λ r. text r.label)

abbrev pub severity_label : FleetSeverity → String
severity_label FleetSeverity.crit = "Kedaluwarsa"
severity_label FleetSeverity.warn = "Segera"
severity_label FleetSeverity.ok = "Aman"
severity_label FleetSeverity.none = "Belum lengkap"

abbrev Columns : Type 0
Columns = List (String × (FleetVehicleView → Cell))

abbrev lease_leasing : FleetVehicleLeaseView → Cell
lease_leasing l = label_of l.leasing

abbrev pub base_columns : Columns
base_columns =
    ("Nomor Polisi", λ v. text v.nopol)
    ∷ ("Jenis Armada", λ v. label_of v.jenis_armada)
    ∷ ("Merk", λ v. optional text v.merk)
    ∷ ("Tipe", λ v. optional text v.tipe)
    ∷ ("Tahun", λ v. optional count v.tahun)
    ∷ ("Kapasitas", λ v. optional text v.kapasitas)
    ∷ ("No Rangka", λ v. optional text v.no_rangka)
    ∷ ("No Mesin", λ v. optional text v.no_mesin)
    ∷ ("No BPKB", λ v. optional text v.no_bpkb)
    ∷ ("Status Kepemilikan", λ v. label_of v.kepemilikan)
    ∷ ("Pemilik/Vendor", λ v. optional text v.pemilik_unit)
    ∷ ("Leasing", λ v. optional lease_leasing v.lease)
    ∷ ("No Kontrak", λ v. optional (λ l. optional text l.nomor_kontrak) v.lease)
    ∷ ("Sopir", λ v. optional (λ d. text d.nama) v.driver)
    ∷ ("SIM Berlaku", λ v. optional (λ d. optional text d.sim_expires_at) v.driver)
    ∷ ("Pool", λ v. label_of v.pool)
    ∷ ("Status", λ v. label_of v.status)
    ∷ ("Odometer", λ v. optional count v.odometer)
    ∷ []

-- `Sisa Kewajiban` is empty once nothing is left to pay.
abbrev debt_of : FleetVehicleLeaseView → Cell
debt_of l = if ltb 0 l.sisa_angsuran then amount l.sisa_kewajiban else null

module _ (n : NumberText) where
  -- `berkasCount.ada` and `wajib` as `${ada}/${wajib}`.
  abbrev ratio : FleetVehicleView → String
  ratio v =
      String.◌++◌ (n.of_integer (ℤ.pos v.berkas_ada))
        (String.◌++◌ "/" (n.of_integer (ℤ.pos v.berkas_wajib)))

  abbrev pub trailing_columns : Columns
  trailing_columns =
      ("Cicilan per Bulan", λ v. optional (λ l. optional amount l.cicilan_per_bulan) v.lease)
      ∷ ("Tenor (bulan)", λ v. optional (λ l. optional count l.tenor_bulan) v.lease)
      ∷ ("Angsuran Terbayar", λ v. optional (λ l. count l.angsuran_terbayar) v.lease)
      ∷ ("Sisa Angsuran", λ v. optional (λ l. count l.sisa_angsuran) v.lease)
      ∷ ("Sisa Kewajiban", λ v. optional debt_of v.lease)
      ∷ ("Berkas Tersimpan", λ v. text (ratio v))
      ∷ ("Dokumen Terdekat (hari)", λ v. optional integer v.min_days_left)
      ∷ ("Status Dokumen", λ v. text (severity_label v.worst_severity))
      ∷ ("Catatan", λ v. optional text v.catatan)
      ∷ []

  -- `value == null ? '' : String(value)`
  abbrev pub cell_text : Cell → String
  cell_text null = ""
  cell_text (text s) = s
  cell_text (integer z) = n.of_integer z
  cell_text (amount a) = n.of_amount a

-- `/[",\n\r]/`
abbrev pub is_special : ℕ → Bool
is_special c = c == 34 || c == 44 || c == 10 || c == 13

-- `text.replace(/"/g, '""')`
unfoldable pub doubled : String → String
doubled String.[] = String.[]
doubled (String.◌∷◌ c s) =
    let rest = String.◌∷◌ c (doubled s) in if code c == 34 then String.◌∷◌ c rest else rest

unfoldable pub escape : String → String
escape s = if any is_special (codes s) then String.◌++◌ "\"" (String.◌++◌ (doubled s) "\"") else s

-- `Array.prototype.join_with`
unfoldable pub join_with : String → List String → String
join_with separator [] = ""
join_with separator (s ∷ []) = s
join_with separator (s ∷ t ∷ l) =
    String.◌++◌ s (String.◌++◌ separator (join_with separator (t ∷ l)))

-- The documents of one vehicle: a type that has been seen keeps its first label.
abbrev seen_documents :
    List FleetVehicleDocumentView → List (String × String) → List (String × String)
seen_documents [] seen = seen
seen_documents (d ∷ ds) seen =
    seen_documents ds
      (if is_some (get str_eq d.code seen) then seen else set str_eq d.code d.label seen)

abbrev seen_in : List FleetVehicleView → List (String × String) → List (String × String)
seen_in [] seen = seen
seen_in (v ∷ vs) seen = seen_in vs (seen_documents v.documents seen)

-- `documentColumns`: code and label of every type of document, in the order of the rows.
abbrev pub document_columns : List FleetVehicleView → List (String × String)
document_columns rows = seen_in rows []

abbrev pub DocumentMap : Type 0
DocumentMap = List (String × FleetVehicleDocumentView)

-- `new Map(row.documents.map((d) => [d.code, d]))`: the last document of a type stays.
abbrev pub by_code : List FleetVehicleDocumentView → DocumentMap → DocumentMap
by_code [] m = m
by_code (d ∷ ds) m = by_code ds (set str_eq d.code d m)

abbrev pub expiry_cell : DocumentMap → String → Cell
expiry_cell m c = optional (λ d. optional text d.expires_at) (get str_eq c m)

module _ (n : NumberText) where
  abbrev pub header_of : List (String × String) → List String
  header_of doc_cols =
      map (λ c. c.0) base_columns
      ++ map (λ c. String.◌++◌ c.1 " Berlaku Sampai") doc_cols
      ++ map (λ c. c.0) (trailing_columns n)

  abbrev pub line_of : List (String × String) → FleetVehicleView → List String
  line_of doc_cols v =
      let m = by_code v.documents [] in
      map (cell_text n) (
        map (λ c. c.1 v) base_columns
        ++ map (λ c. expiry_cell m c.0) doc_cols
        ++ map (λ c. c.1 v) (trailing_columns n))

  -- The cells of the export, before they are escaped.
  abbrev pub table : List FleetVehicleView → List (List String)
  table rows =
      let doc_cols = document_columns rows in header_of doc_cols ∷ map (line_of doc_cols) rows

  unfoldable pub to_csv : List FleetVehicleView → String
  to_csv rows =
      String.◌++◌ "\u{feff}"
        (join_with "\r\n" (map (λ l. join_with "," (map escape l)) (table rows)))
