-- ===== src/Tests/CsvTests.antt =====
-- An export of one vehicle whose note has a comma and quotes.
use shipment_tracking_system.Prelude.{◌≡◌, refl, none, some, [], ◌∷◌, map, codes, length, All}
use shipment_tracking_system.Fleet.{FleetSeverity}
use shipment_tracking_system.Fleet.Csv.{
  FleetVehicleView, NumberText, escape, doubled, table, header_of, line_of, document_columns,
  to_csv,
}
use shipment_tracking_system.Fleet.CsvReader.{read_csv}
use shipment_tracking_system.Fleet.Export.{drop_bom, to_csv_reads_back}

abbrev numbers : NumberText
numbers = record { of_integer = λ z. "2"; of_amount = λ a. "1500000.5" }

abbrev vehicle : FleetVehicleView
vehicle = record {
  nopol = "B9114KYZ";
  merk = some "Hino";
  tipe = none;
  tahun = some 2019;
  kapasitas = none;
  no_rangka = none;
  no_mesin = none;
  no_bpkb = none;
  pemilik_unit = none;
  odometer = none;
  catatan = some "ban \"baru\", kiri";
  jenis_armada = none;
  kepemilikan = none;
  pool = none;
  status = none;
  driver = none;
  lease = none;
  documents = (record { code = "stnk"; label = "STNK"; expires_at = some "2026-12-31" }) ∷ [];
  worst_severity = FleetSeverity.ok;
  min_days_left = none;
  berkas_ada = 2;
  berkas_wajib = 2;
}

quoted : escape "ban \"baru\", kiri" ≡ "\"ban \"\"baru\"\", kiri\""
unfolding escape doubled
quoted = refl

to_csv_reads_back_example :
    (read_csv (drop_bom (codes (to_csv numbers (vehicle ∷ []))))
      ≡ some (map (map codes) (table numbers (vehicle ∷ []))))
    × All
        (λ l. length l ≡ length (header_of numbers (document_columns (vehicle ∷ []))))
        (map (line_of numbers (document_columns (vehicle ∷ []))) (vehicle ∷ []))
to_csv_reads_back_example = to_csv_reads_back numbers (vehicle ∷ [])
